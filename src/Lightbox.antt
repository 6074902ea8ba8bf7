-- ===== src/Lightbox.antt =====
-- app/javascript/controllers/lightbox_controller.js: a dialog at the end of the body that shows one
-- image large. Of the dialog's content the model keeps the source of its image.
pub mod Cleanup
mod Examples
use moneygun.Base.{
  ℕ, Bool, true, false, not, ◌||◌, List, [], ◌∷◌, ◌++◌, Option, none, some, Text, codes, text_eq,
  keep_if, if◌then◌else◌,
}

pub data Node : Type 0 where
  lightbox : Node
  other : ℕ → Node

abbrev pub is_lightbox : Node → Bool
is_lightbox lightbox = true
is_lightbox (other k) = false

-- `this.dialog`.
pub record Dialog : Type 0 where
  pub is_open : Bool
  pub src : Option Text

pub record Lightbox : Type 0 where
  pub dialog : Option Dialog
  pub body : List Node

pub connect : Lightbox → Lightbox
connect l = record l {
  dialog = some (record { is_open = false; src = none });
  body = l.body ++ lightbox ∷ [];
}

remove_dialog : Option Dialog → Lightbox → Lightbox
remove_dialog none l = l
remove_dialog (some d) l = record l { body = keep_if (λ n. not (is_lightbox n)) l.body }

-- `this.dialog?.remove()`.
pub disconnect : Lightbox → Lightbox
unfolding remove_dialog
disconnect l = remove_dialog l.dialog l

-- An image, or whatever element the action stands on.
pub record Image : Type 0 where
  pub tag_name : Text
  pub src : Text

show : Option Dialog → Text → Lightbox → Lightbox
show none src l = l
show (some d) src l = record l { dialog = some (record { is_open = true; src = some src }) }

-- `open(event)`.
pub open_image : Image → Lightbox → Lightbox
unfolding show
open_image img l = if not (text_eq img.tag_name (codes "IMG")) then l else show l.dialog img.src l

-- What a click inside the dialog falls on.
pub data Target : Type 0 where
  backdrop close_button picture : Target

abbrev pub closes : Target → Bool
closes picture = false
closes _ = true

close_dialog : Option Dialog → Lightbox → Lightbox
close_dialog none l = l
close_dialog (some d) l = record l { dialog = some (record d { is_open = false }) }

-- The `click` listener of the dialog.
pub on_click : Target → Lightbox → Lightbox
unfolding close_dialog
on_click t l = if closes t then close_dialog l.dialog l else l

pub data Event : Type 0 where
  opens : Image → Event
  clicks : Target → Event

pub step : Event → Lightbox → Lightbox
step (opens img) l = open_image img l
step (clicks t) l = on_click t l

pub run : List Event → Lightbox → Lightbox
run [] l = l
run (e ∷ es) l = run es (step e l)
