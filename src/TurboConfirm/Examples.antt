-- ===== src/TurboConfirm/Examples.antt =====
-- Runs of the confirmation dialog on the markup of the shared partial.
use moneygun.Base.{◌≡◌, refl, ◌≢◌, true, false, [], ◌∷◌, none, some, codes, text_eq, trim}
use moneygun.TurboConfirm.{
  Dataset, Request, Dialog, elsewhere, type_text, click_accept, press_escape, prompt, confirm_on,
  run, step, resolved, required_text,
}
use moneygun.TurboConfirm.Outcome.{Closed, run-Closed, run_needs_text}
use moneygun.TurboConfirm.Stale.{dismissed, escape_repeats, labels}

abbrev no_data : Dataset
no_data = record { description = none; text = none; accept = none; reject = none }

abbrev page : Dialog
page = record {
  is_open = false;
  return_value = [];
  title = [];
  description = [];
  description_hidden = true;
  described_by = false;
  input_value = [];
  placeholder = [];
  input_hidden = true;
  accept_disabled = false;
  accept_text = codes " Confirm ";
  reject_text = codes " Cancel ";
  focus = elsewhere;
  session = none;
}

-- Deleting an organization asks for its name; the label of the button is the submitter's.
abbrev delete_request : Request
delete_request = record {
  message = codes "Delete?";
  element = record no_data { text = some (codes "acme") };
  submitter = some (record no_data { text = some []; accept = some (codes "Delete") });
}

abbrev leave_request : Request
leave_request = record { message = codes "Leave?"; element = no_data; submitter = none }

shows_labels : labels (prompt delete_request page) ≡ (codes "Delete", codes "Cancel")
unfolding prompt trim required_text
shows_labels = refl

asks_for_name : required_text delete_request ≡ some (codes "acme")
unfolding required_text
asks_for_name = refl

falls_back : confirm_on (λ m. true) leave_request none ≡ resolved true
unfolding confirm_on
falls_back = refl

confirmed :
    (run (type_text (codes "acme") ∷ click_accept ∷ []) (prompt delete_request page)).1 ≡ some true
unfolding run step prompt required_text text_eq
confirmed = refl

left : (run (click_accept ∷ []) (prompt leave_request page)).1 ≡ some true
unfolding run step prompt required_text text_eq
left = refl

page_fresh : page.return_value ≢ codes "confirm"
page_fresh h = cc

run-Closed_example :
    Closed
      (codes "Confirm")
      (codes "Cancel")
      true
      (run (click_accept ∷ []) (prompt leave_request page)).0
unfolding trim
run-Closed_example = run-Closed leave_request page (click_accept ∷ []) true left

run_needs_text_example :
    (run (type_text (codes "acme") ∷ click_accept ∷ []) (prompt delete_request page)).0.input_value
    ≡ codes "acme"
run_needs_text_example =
    run_needs_text delete_request page (codes "acme") (type_text (codes "acme") ∷ click_accept ∷ [])
      asks_for_name page_fresh confirmed

escape_repeats_example :
    (run (press_escape ∷ []) (
      prompt delete_request (
        dismissed
          (delete_request ∷ leave_request ∷ [])
          (run (click_accept ∷ []) (prompt leave_request page)).0))).1
    ≡ some true
escape_repeats_example =
    escape_repeats leave_request (click_accept ∷ []) page true (delete_request ∷ leave_request ∷ [])
      delete_request left
