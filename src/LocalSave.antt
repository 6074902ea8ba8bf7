-- ===== src/LocalSave.antt =====
-- app/javascript/controllers/local_save_controller.js: drafts of an input kept in `localStorage`.
-- The entry of the controller's key is `stored`. `save_due` says that the timer of the debounced
-- `save` is running, and `restore_due` that `restoreContent` waits for the next frame.
pub mod Drafts
mod Examples
use moneygun.Base.{Bool, true, false, List, [], ◌∷◌, ◌++◌, Option, none, some, Text, if◌then◌else◌}

pub record Page : Type 0 where
  pub stored : Option Text
  pub input : Text
  pub is_lexxy : Bool
  pub disabled : Bool
  pub save_due : Bool
  pub restore_due : Bool
  pub changes : List Text

-- `#clear()`.
clear : Page → Page
clear p = record p { stored = none }

-- `restoreContent()`, up to its `await`.
start_restore : Page → Page
start_restore p = if p.disabled then p else record p { restore_due = true }

-- `connect()`, for the two values of `fresh`.
pub connect : Bool → Page → Page
unfolding clear start_restore
connect true p = record (clear p) { disabled = true }
connect false p = start_restore p

-- `submit()`, with the success of the submission.
pub submit : Bool → Page → Page
unfolding clear
submit success p = if success then clear p else p

-- The body of `save()` after its guard: an empty content is falsy.
store : Text → Page → Page
unfolding clear
store [] p = clear p
store (c ∷ cs) p = record p { stored = some (c ∷ cs) }

-- `save()`, when the timer of the debounced function runs it.
pub save : Page → Page
unfolding store
save p = if p.disabled then p else store p.input p

-- `#triggerChangeEvent`: only the rich text editor is told.
trigger_change : Text → Page → Page
trigger_change v p = if p.is_lexxy then record p { changes = p.changes ++ v ∷ [] } else p

-- The rest of `restoreContent()`, in the frame that it waited for.
put_back : Option Text → Page → Page
unfolding trigger_change
put_back none p = p
put_back (some []) p = p
put_back (some (c ∷ cs)) p = trigger_change (c ∷ cs) (record p { input = c ∷ cs })

pub restore : Page → Page
unfolding put_back
restore p = put_back p.stored p

pub data Event : Type 0 where
  edit : Text → Event
  save_timer next_frame : Event
  submit_end : Bool → Event

-- `edit` is the user's input followed by a call of the debounced `save`; a timer or a frame that
-- nobody waits for does not come.
pub step : Event → Page → Page
unfolding submit save restore
step (edit v) p = record p { input = v; save_due = true }
step save_timer p = if p.save_due then save (record p { save_due = false }) else p
step next_frame p = if p.restore_due then restore (record p { restore_due = false }) else p
step (submit_end success) p = submit success p

pub run : List Event → Page → Page
unfolding step
run [] p = p
run (e ∷ es) p = run es (step e p)

-- A new page on which the controller connects, with what the browser has stored.
pub load : Bool → Option Text → Text → Bool → Page
unfolding connect
load fresh stored input is_lexxy = connect fresh (record {
  stored = stored;
  input = input;
  is_lexxy = is_lexxy;
  disabled = false;
  save_due = false;
  restore_due = false;
  changes = [];
})
