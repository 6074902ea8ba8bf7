-- ===== src/UnsavedChanges.antt =====
-- app/javascript/controllers/unsaved_changes_controller.js: a form that warns before the user leaves
-- it with unsaved changes.
pub mod History
mod Examples
use moneygun.Base.{Bool, true, false, not, ◌&&◌, List, [], ◌∷◌, if◌then◌else◌}

pub record Form : Type 0 where
  pub dirty : Bool
  pub submitting : Bool

pub connect : Form → Form
connect f = record f { submitting = false }

pub mark_dirty : Form → Form
mark_dirty f = record f { dirty = true }

pub submit_start : Form → Form
submit_start f = record f { submitting = true }

pub submit_end : Bool → Form → Form
submit_end success f =
    let g = record f { submitting = false } in if success then record g { dirty = false } else g

-- `get isDirty()`.
pub is_dirty : Form → Bool
is_dirty f = not f.submitting && f.dirty

-- Whether the handler of `beforeunload` prevents the default.
pub before_unload : Form → Bool
unfolding is_dirty
before_unload f = is_dirty f

-- Whether the handler of `turbo:before-visit` prevents the visit, given what `window.confirm` would
-- answer.
pub before_visit : Bool → Form → Bool
unfolding is_dirty
before_visit confirmed f = is_dirty f && not confirmed

pub data Event : Type 0 where
  change start : Event
  finish : Bool → Event

pub step : Event → Form → Form
unfolding mark_dirty submit_start submit_end
step change f = mark_dirty f
step start f = submit_start f
step (finish success) f = submit_end success f

pub run : List Event → Form → Form
unfolding step
run [] f = f
run (e ∷ es) f = run es (step e f)
