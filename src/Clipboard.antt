-- ===== src/Clipboard.antt =====
-- app/javascript/controllers/clipboard_controller.js: copying a text, with a message for screen
-- readers and a new content of the button for a while. What the clipboard answers is an event.
pub mod Feedback
mod Examples
use moneygun.Base.{
  Bool, true, false, ◌&&◌, List, [], ◌∷◌, ◌++◌, Option, none, some, Text, or_text, truthy, trim,
  if◌then◌else◌,
}

-- The source element: a control with a value, or any other with its text.
pub data Source : Type 0 where
  control other : Text → Source

-- `#sourceText()`.
pub source_text : Source → Text
source_text (control value) = value
source_text (other text) = trim text

pub record Clipboard : Type 0 where
  pub success_content : Text
  pub success_message : Text
  pub failure_content : Text
  -- the content of the button target, if there is one
  pub button : Option Text
  pub default_content : Option Text
  pub has_status : Bool
  -- the text of the status element, `none` once that is out of the page
  pub status : Option Text
  pub reset_timer : Bool
  -- the message of the animation frame that is awaited
  pub announcement : Option Text

-- `connect()`; with no status target, `#buildStatusElement` adds an empty one.
pub connect : Clipboard → Clipboard
connect c = record c {
  default_content = c.button;
  status = if c.has_status then c.status else some [];
}

-- `disconnect()`.
pub disconnect : Clipboard → Clipboard
disconnect c = record c {
  reset_timer = false;
  announcement = none;
  status = if c.has_status then c.status else none;
}

clear_status : Option Text → Option Text
clear_status none = none
clear_status (some s) = some []

-- `#announce(message)`: the earlier frame is cancelled, and the status is empty up to the new one.
announce : Text → Clipboard → Clipboard
unfolding clear_status
announce message c = record c { status = clear_status c.status; announcement = some message }

show_success : Option Text → Clipboard → Clipboard
show_success none c = c
show_success (some b) c =
    if truthy c.success_content
    then record c { button = some c.success_content; reset_timer = true }
    else c

-- `copy()`, once the clipboard has taken the text or refused it.
pub copied : Bool → Clipboard → Clipboard
unfolding announce show_success
copied success c =
    if success
    then show_success c.button (announce (or_text c.success_message c.success_content) c)
    else announce c.failure_content c

-- The timer of the button.
pub reset_button : Clipboard → Clipboard
reset_button c =
    if c.reset_timer then record c { button = c.default_content; reset_timer = false } else c

set_status : Text → Option Text → Option Text
set_status m none = none
set_status m (some s) = some m

show_announcement : Option Text → Clipboard → Clipboard
unfolding set_status
show_announcement none c = c
show_announcement (some m) c = record c { status = set_status m c.status; announcement = none }

-- The animation frame.
pub next_frame : Clipboard → Clipboard
unfolding show_announcement
next_frame c = show_announcement c.announcement c

pub data Event : Type 0 where
  copies : Bool → Event
  timer frame : Event

pub step : Event → Clipboard → Clipboard
unfolding copied reset_button next_frame
step (copies success) c = copied success c
step timer c = reset_button c
step frame c = next_frame c

pub run : List Event → Clipboard → Clipboard
unfolding step
run [] c = c
run (e ∷ es) c = run es (step e c)
