-- ===== src/TurboConfirm.antt =====
-- app/javascript/turbo_confirm.js: the styled confirmation dialog that stands in for the browser's
-- `confirm()`. The dialog element, with the shared markup of
-- app/views/shared/_turbo_confirm_dialog.html.erb, is a record of what the script reads and writes.
-- The listeners of one call are the closure `session`; `none` means that none is registered.
pub mod Outcome
pub mod Stale
mod Examples
use moneygun.Base.{
  ◌≡◌, Bool, true, false, not, ◌&&◌, List, [], ◌∷◌, Option, none, some, Text, codes, truthy,
  or_value, or_default, text_eq, trim, if◌then◌else◌,
}

-- The `data-turbo-confirm-*` attributes of one element; a missing one is undefined.
pub record Dataset : Type 0 where
  pub description : Option Text
  pub text : Option Text
  pub accept : Option Text
  pub reject : Option Text

-- The arguments of the function: the message, the element, and the submitter if there is one.
pub record Request : Type 0 where
  pub message : Text
  pub element : Dataset
  pub submitter : Option Dataset

pub data Focus : Type 0 where
  elsewhere on_input on_accept : Focus

-- What the listeners of one call close over. `required` is `none` where `requiredText` is falsy,
-- and then the two listeners of the text input are not registered.
pub record Session : Type 0 where
  pub required : Option Text
  pub default_accept : Text
  pub default_reject : Text

pub record Dialog : Type 0 where
  pub is_open : Bool
  pub return_value : Text
  pub title : Text
  pub description : Text
  pub description_hidden : Bool
  pub described_by : Bool
  pub input_value : Text
  pub placeholder : Text
  pub input_hidden : Bool
  pub accept_disabled : Bool
  pub accept_text : Text
  pub reject_text : Text
  pub focus : Focus
  pub session : Option Session

abbrev pub confirm_value : Text
confirm_value = codes "confirm"

abbrev pub cancel_value : Text
cancel_value = codes "cancel"

empty_dataset : Dataset
empty_dataset = record { description = none; text = none; accept = none; reject = none }

-- `submitter?.dataset || {}`.
submitter_data : Option Dataset → Dataset
unfolding empty_dataset
submitter_data none = empty_dataset
submitter_data (some d) = d

-- A value that an `if` finds truthy.
pub present : Option Text → Option Text
present none = none
present (some []) = none
present (some (c ∷ cs)) = some (c ∷ cs)

pub description_of : Request → Option Text
unfolding submitter_data
description_of r = or_value (submitter_data r.submitter).description r.element.description

pub required_text : Request → Option Text
unfolding submitter_data present
required_text r = present (or_value (submitter_data r.submitter).text r.element.text)

pub accept_label : Request → Option Text
unfolding submitter_data
accept_label r = or_value (submitter_data r.submitter).accept r.element.accept

pub reject_label : Request → Option Text
unfolding submitter_data
reject_label r = or_value (submitter_data r.submitter).reject r.element.reject

-- The description paragraph.
set_description : Option Text → Dialog → Dialog
set_description none d = record d {
  description = [];
  description_hidden = true;
  described_by = false;
}
set_description (some s) d = record d {
  description = s;
  description_hidden = false;
  described_by = true;
}

-- The text input, and whether the accept button starts disabled.
set_input : Option Text → Dialog → Dialog
set_input none d = record d { input_value = []; input_hidden = true; accept_disabled = false }
set_input (some s) d = record d {
  input_value = [];
  placeholder = s;
  input_hidden = false;
  accept_disabled = true;
}

-- The labels of the buttons; the session remembers the trimmed texts that they had.
set_labels : Request → Option Text → Dialog → Dialog
set_labels r needed d = record d {
  accept_text = or_default (accept_label r) (trim d.accept_text);
  reject_text = or_default (reject_label r) (trim d.reject_text);
  session = some (record {
    required = needed;
    default_accept = trim d.accept_text;
    default_reject = trim d.reject_text;
  });
}

-- `showModal()` and the focus.
show_modal : Option Text → Dialog → Dialog
show_modal none d = record d { is_open = true; focus = on_accept }
show_modal (some s) d = record d { is_open = true; focus = on_input }

-- The whole function, up to the promise that it returns.
pub prompt : Request → Dialog → Dialog
unfolding set_description set_input set_labels show_modal present description_of accept_label
    reject_label
prompt r d =
    let needed = required_text r in
    show_modal needed (
      set_labels r needed (
        set_input needed
          (set_description (present (description_of r)) (record d { title = r.message }))))

-- The answer of the promise: known at once, or still awaited.
pub data Answer : Type 0 where
  resolved : Bool → Answer
  awaited : Dialog → Answer

-- A page without the dialog element falls back on the browser's `confirm`.
pub confirm_on : (Text → Bool) → Request → Option Dialog → Answer
confirm_on native r none = resolved (native r.message)
confirm_on native r (some d) = awaited (prompt r d)

-- What the user can do while the dialog is shown.
pub data Event : Type 0 where
  type_text : Text → Event
  press_enter click_backdrop click_inside click_accept click_reject press_escape : Event

-- The `close` listener: it drops the listeners, restores the buttons and resolves the promise.
on_close : Option Session → Dialog → Dialog × Option Bool
on_close none d = (d, none)
on_close (some s) d = (
  record d {
    session = none;
    accept_disabled = false;
    accept_text = s.default_accept;
    reject_text = s.default_reject;
  },
  some (text_eq d.return_value confirm_value),
)

-- The browser closes the dialog; with `none` it leaves the return value alone.
close_dialog : Option Text → Dialog → Dialog × Option Bool
unfolding on_close
close_dialog none d = on_close d.session (record d { is_open = false })
close_dialog (some v) d = on_close d.session (record d { is_open = false; return_value = v })

required_of : Option Session → Option Text
required_of none = none
required_of (some s) = s.required

-- The `input` listener, where it is registered.
on_input_event : Option Text → Dialog → Dialog
on_input_event none d = d
on_input_event (some s) d = record d { accept_disabled = not (text_eq d.input_value s) }

-- The `keydown` listener for Enter, where it is registered.
on_enter : Option Text → Dialog → Dialog × Option Bool
unfolding close_dialog
on_enter none d = (d, none)
on_enter (some s) d =
    if not d.accept_disabled then close_dialog (some confirm_value) d else (d, none)

-- The `click` listener closes on the backdrop, the buttons submit their `method="dialog"` forms, and
-- Escape makes the browser close the dialog without a value.
handle : Event → Dialog → Dialog × Option Bool
unfolding on_input_event on_enter close_dialog required_of
handle (type_text v) d =
    (on_input_event (required_of d.session) (record d { input_value = v }), none)
handle press_enter d = on_enter (required_of d.session) d
handle click_backdrop d = close_dialog (some cancel_value) d
handle click_inside d = (d, none)
handle click_accept d = if d.accept_disabled then (d, none) else close_dialog (some confirm_value) d
handle click_reject d = close_dialog (some cancel_value) d
handle press_escape d = close_dialog none d

-- A dialog that is not shown gets no event.
pub step : Event → Dialog → Dialog × Option Bool
unfolding handle
step e d = if d.is_open then handle e d else (d, none)

-- Go on with `k`, unless the promise is resolved.
pub resume : (Dialog → Dialog × Option Bool) → Dialog × Option Bool → Dialog × Option Bool
resume k (d, none) = k d
resume k (d, some b) = (d, some b)

-- The events up to the one that resolves the promise.
pub run : List Event → Dialog → Dialog × Option Bool
unfolding resume
run [] d = (d, none)
run (e ∷ es) d = resume (run es) (step e d)
