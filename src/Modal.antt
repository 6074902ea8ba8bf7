-- ===== src/Modal.antt =====
-- app/javascript/controllers/dialog_controller.js: a modal dialog that opens as it connects. Elements
-- are numbers. `close_due` says that the browser has closed the dialog and not yet sent its `close`
-- event. `src` and `content` are those of the turbo frame `modal`, if the page has it.
pub mod Closing
mod Examples
use moneygun.Base.{
  ℕ, Bool, true, false, not, ◌&&◌, ◌==◌, List, [], ◌∷◌, Option, none, some, Text, if◌then◌else◌,
}

pub record Frame : Type 0 where
  pub src : Option Text
  pub content : Text

pub record Modal : Type 0 where
  pub element : ℕ
  pub focusable : Option ℕ
  pub is_open : Bool
  pub close_due : Bool
  pub listening : Bool
  pub body_locked : Bool
  pub focus : Option ℕ
  pub previously_focused : Option ℕ
  pub frame : Option Frame
  pub mousedown_target : Option ℕ

-- `focusable?.focus()` after the browser has moved the focus into the dialog.
focus_in : Option ℕ → Modal → Modal
focus_in none m = record m { focus = some m.element }
focus_in (some k) m = record m { focus = some k }

-- `open()`.
pub open_modal : Modal → Modal
unfolding focus_in
open_modal m = focus_in m.focusable (record m { is_open = true; body_locked = true })

pub connect : Modal → Modal
unfolding open_modal
connect m = record (open_modal (record m { previously_focused = m.focus })) { listening = true }

pub disconnect : Modal → Modal
disconnect m = record m { listening = false }

-- `close()`; the browser also closes the dialog itself on Escape. It sends the event later.
pub close : Modal → Modal
close m = if m.is_open then record m { is_open = false; close_due = true } else m

pub hide_on_submit : Bool → Modal → Modal
hide_on_submit success m = if success then close m else m

clear_frame : Option Frame → Option Frame
clear_frame none = none
clear_frame (some f) = some (record f { src = none; content = [] })

focus_back : Option ℕ → Modal → Modal
focus_back none m = m
focus_back (some k) m = record m { focus = some k }

-- `handleClose()`.
pub handle_close : Modal → Modal
unfolding clear_frame focus_back
handle_close m =
    focus_back m.previously_focused (record m { body_locked = false; frame = clear_frame m.frame })

pub track_mousedown : ℕ → Modal → Modal
track_mousedown target m = record m { mousedown_target = some target }

is_element : ℕ → Option ℕ → Bool
is_element e none = false
is_element e (some t) = t == e

pub click_outside : ℕ → Modal → Modal
unfolding is_element
click_outside target m =
    if target == m.element && is_element m.element m.mousedown_target then close m else m

pub data Event : Type 0 where
  mousedown click focus_moved : ℕ → Event
  escape close_event : Event
  submit_end : Bool → Event

pub step : Event → Modal → Modal
unfolding track_mousedown click_outside hide_on_submit
step (mousedown target) m = track_mousedown target m
step (click target) m = click_outside target m
step (focus_moved k) m = record m { focus = some k }
step escape m = close m
step (submit_end success) m = hide_on_submit success m
step close_event m =
    if m.close_due
    then (if m.listening
        then handle_close (record m { close_due = false })
        else record m { close_due = false })
    else m

pub run : List Event → Modal → Modal
run [] m = m
run (e ∷ es) m = run es (step e m)
