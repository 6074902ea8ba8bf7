-- ===== src/TurboConfirm/Stale.antt =====
-- The dialog element is shared by the whole page, so one call sees what the last one left.
use moneygun.Base.{
  ap, ◌∙◌, sym, not, ◌≡◌, Bool, true, List, [], ◌∷◌, none, some, Text, text_eq, text_eq_iff, trim,
  trim_idem, if◌then◌else◌, arith,
}
use moneygun.TurboConfirm.{
  Request, Dialog, Event, type_text, press_enter, press_escape, confirm_value, required_text,
  prompt, step, run,
}
use moneygun.TurboConfirm.Outcome.{run-Closed}

-- Escape leaves the return value alone, so the answer is the one that the value gives.
prompt_escape :
    (r : Request) (d : Dialog)
    → (run (press_escape ∷ []) (prompt r d)).1 ≡ some (text_eq d.return_value confirm_value)
unfolding run step prompt
prompt_escape r d = ground arith

-- The dialog after prompts that are dismissed by Escape, one after the other.
pub dismissed : List Request → Dialog → Dialog
dismissed [] d = d
dismissed (r ∷ rs) d = dismissed rs (run (press_escape ∷ []) (prompt r d)).0

-- Escape leaves the return value as it was, also over many prompts.
dismissed-value :
    (rs : List Request) (d : Dialog) (b : Bool)
    → text_eq d.return_value confirm_value ≡ b
    → text_eq (dismissed rs d).return_value confirm_value ≡ b
unfolding dismissed
dismissed-value [] d b h = h
dismissed-value (r ∷ rs) d b h =
    dismissed-value rs (run (press_escape ∷ []) (prompt r d)).0 b
      (sym (run-Closed r d (press_escape ∷ []) _ (prompt_escape r d)).read_off ∙ h)

-- Where a prompt was answered, and any number of prompts after it were dismissed by Escape, the next
-- prompt that is dismissed by Escape resolves to that answer again: to true after one that was
-- confirmed, since the return value is never reset.
pub escape_repeats :
    (r : Request) (es : List Event) (d : Dialog) (answer : Bool) (between : List Request)
    (q : Request)
    → (run es (prompt r d)).1 ≡ some answer
    → (run (press_escape ∷ []) (prompt q (dismissed between (run es (prompt r d)).0))).1
      ≡ some answer
escape_repeats r es d answer between q h =
    prompt_escape q (dismissed between (run es (prompt r d)).0)
    ∙ ap some (
        dismissed-value between (run es (prompt r d)).0 answer
          (sym (run-Closed r d es answer h).read_off))

-- Typing a text and pressing Enter: the promise resolves to true if it is the text asked for, and
-- the accept button is enabled again; otherwise it stays open, with the accept button disabled.
pub type_then_enter :
    (r : Request) (d : Dialog) (s v : Text)
    → required_text r ≡ some s
    → let out = run (type_text v ∷ press_enter ∷ []) (prompt r d) in
      (out.1 ≡ (if text_eq v s then some true else none))
      × (out.0.accept_disabled ≡ not (text_eq v s))
unfolding run step prompt
type_then_enter r d s v h = ground (arith, text_eq_iff confirm_value confirm_value)

-- The labels that a call shows.
abbrev pub labels : Dialog → Text × Text
labels d = (d.accept_text, d.reject_text)

labels-prompt :
    (r : Request) (d e : Dialog)
    → trim d.accept_text ≡ trim e.accept_text
    → trim d.reject_text ≡ trim e.reject_text
    → labels (prompt r d) ≡ labels (prompt r e)
unfolding prompt
labels-prompt r d e h k = ground arith

-- A call leaves no trace in the buttons: however it was answered, any later call shows the labels
-- that it would have shown without it.
pub labels-prompt_after :
    (r q : Request) (d : Dialog) (es : List Event) (answer : Bool)
    → (run es (prompt r d)).1 ≡ some answer
    → labels (prompt q (run es (prompt r d)).0) ≡ labels (prompt q d)
labels-prompt_after r q d es answer h =
    let c = run-Closed r d es answer h in
    labels-prompt q (run es (prompt r d)).0 d (ground (arith, c, trim_idem d.accept_text))
      (ground (arith, c, trim_idem d.reject_text))
