-- ===== src/TurboConfirm/Outcome.antt =====
-- What the answer of the confirmation dialog means, and the state that it leaves behind.
use mathlib.Core.Path.{subst}
use moneygun.Base.{
  All, ◌≡◌, refl, ◌≢◌, Bool, true, false, not, List, [], ◌∷◌, Option, none, some, Text, text_eq,
  text_eq_iff, trim, arith, or_value,
}
use moneygun.TurboConfirm.{
  cancel_value, press_escape, resume, Request, Dialog, Event, type_text, press_enter, click_accept,
  confirm_value, submitter_data, required_text, present, prompt, step, run,
}

-- A shown dialog with the listeners of a call that needs the text `needed`, and the button labels
-- to come back to.
record Waiting (needed : Option Text) (a b : Text) (d : Dialog) : Type 0 where
  shown : d.is_open ≡ true
  closure : d.session ≡ some (record { required = needed; default_accept = a; default_reject = b })

-- What a step that resolves the promise leaves: the dialog is shut, its listeners are gone, the
-- buttons are enabled and have their labels back, and the answer is read off the return value.
pub record Closed (a b : Text) (answer : Bool) (d : Dialog) : Type 0 where
  pub shut : d.is_open ≡ false
  pub torn_down : d.session ≡ none
  pub enabled : d.accept_disabled ≡ false
  pub accept_label_back : d.accept_text ≡ a
  pub reject_label_back : d.reject_text ≡ b
  pub read_off : answer ≡ text_eq d.return_value confirm_value

prompt-Waiting :
    (r : Request) (d : Dialog)
    → Waiting (required_text r) (trim d.accept_text) (trim d.reject_text) (prompt r d)
unfolding prompt
prompt-Waiting r d = ground arith

-- A run in which every event is of the kind `E` keeps `P` while it waits, and ends in `Q`.
abbrev Ends : (Dialog → Type 0) → (Bool → Dialog → Type 0) → Dialog × Option Bool → Type 0
Ends P Q (d, none) = P d
Ends P Q (d, some answer) = Q answer d

resume_rule :
    (P : Dialog → Type 0) (Q : Bool → Dialog → Type 0) (k : Dialog → Dialog × Option Bool)
    → ((d : Dialog) → P d → Ends P Q (k d))
    → (p : Dialog × Option Bool) → Ends P Q p
    → Ends P Q (resume k p)
unfolding resume
resume_rule P Q k next (d, none) h = next d h
resume_rule P Q k next (d, some b) h = h

run_rule :
    (E : Event → Type 0) (P : Dialog → Type 0) (Q : Bool → Dialog → Type 0)
    → ((e : Event) (d : Dialog) → E e → P d → Ends P Q (step e d))
    → (es : List Event) (d : Dialog) → All E es
    → P d
    → Ends P Q (run es d)
unfolding run
run_rule E P Q keep [] d a h = h
run_rule E P Q keep (e ∷ es) d a h =
    resume_rule P Q (run es) (λ d'. run_rule E P Q keep es d' a.1) (step e d) (keep e d a.0 h)

-- What a run that resolves the promise ends in.
Ends-resolved :
    (P : Dialog → Type 0) (Q : Bool → Dialog → Type 0) (p : Dialog × Option Bool) (answer : Bool)
    → Ends P Q p
    → p.1 ≡ some answer
    → Q answer p.0
Ends-resolved P Q (d, none) answer h q = cc
Ends-resolved P Q (d, some x) answer h q = subst (λ b. Q b d) (ground arith) h

run_resolved :
    (E : Event → Type 0) (P : Dialog → Type 0) (Q : Bool → Dialog → Type 0)
    → ((e : Event) (d : Dialog) → E e → P d → Ends P Q (step e d))
    → (es : List Event) (d : Dialog) (answer : Bool) → All E es
    → P d
    → (run es d).1 ≡ some answer
    → Q answer (run es d).0
run_resolved E P Q keep es d answer a h =
    Ends-resolved P Q (run es d) answer (run_rule E P Q keep es d a h)

abbrev Any : Event → Type 0
Any e = Unit

All-Any : (es : List Event) → All Any es
All-Any [] = tt
All-Any (e ∷ es) = (tt, All-Any es)

abbrev Left : Option Text → Text → Text → Dialog × Option Bool → Type 0
Left n a b = Ends (Waiting n a b) (Closed a b)

step-Left :
    (e : Event) (n : Option Text) (a b : Text) (d : Dialog)
    → Waiting n a b d
    → Left n a b (step e d)
unfolding step
step-Left (type_text v) none a b d w = ground arith
step-Left (type_text v) (some s) a b d w = ground arith
step-Left press_enter n a b d w = ground arith
step-Left _ n a b d w = ground arith

-- Whatever the user does, once the promise is resolved the dialog is shut, no listener is left, the
-- accept button is enabled, both buttons have their trimmed labels back, and the answer is whether
-- the return value of the dialog is "confirm".
pub run-Closed :
    (r : Request) (d : Dialog) (es : List Event) (answer : Bool)
    → (run es (prompt r d)).1 ≡ some answer
    → Closed (trim d.accept_text) (trim d.reject_text) answer (run es (prompt r d)).0
run-Closed r d es answer =
    let a = trim d.accept_text in
    let b = trim d.reject_text in
    let n = required_text r in
    run_resolved Any (Waiting n a b) (Closed a b) (λ e d' _. step-Left e n a b d') es (prompt r d)
      answer (All-Any es) (prompt-Waiting r d)

-- A waiting dialog whose accept button is enabled only while the input holds the text `s`, and
-- whose return value is not "confirm" from before.
record Gated (s a b : Text) (d : Dialog) : Type 0 where
  waiting : Waiting (some s) a b d
  gate : d.accept_disabled ≡ not (text_eq d.input_value s)
  fresh : d.return_value ≢ confirm_value

present-ne : (o : Option Text) {s : Text} → present o ≡ some s → text_eq [] s ≡ false
unfolding present text_eq
present-ne none h = ground arith
present-ne (some []) h = ground arith
present-ne (some (c ∷ cs)) h = ground arith

required_text-ne : (r : Request) {s : Text} → required_text r ≡ some s → text_eq [] s ≡ false
unfolding required_text
required_text-ne r h = present-ne (or_value (submitter_data r.submitter).text r.element.text) h

prompt_gate :
    (r : Request) (d : Dialog) {s : Text}
    → required_text r ≡ some s
    → d.return_value ≢ confirm_value
    → ((prompt r d).accept_disabled ≡ true)
      × ((prompt r d).input_value ≡ [])
      × ((prompt r d).return_value ≢ confirm_value)
unfolding prompt
prompt_gate r d h f = ground arith

prompt_return :
    (r : Request) (d : Dialog)
    → d.return_value ≢ confirm_value
    → (prompt r d).return_value ≢ confirm_value
unfolding prompt
prompt_return r d f = ground arith

prompt-Gated :
    (r : Request) (d : Dialog) (s : Text)
    → required_text r ≡ some s
    → d.return_value ≢ confirm_value
    → Gated s (trim d.accept_text) (trim d.reject_text) (prompt r d)
prompt-Gated r d s h f = record {
  waiting = rw h at (prompt-Waiting r d);
  gate = ground (arith, prompt_gate r d h f, required_text-ne r h);
  fresh = (prompt_gate r d h f).2;
}

-- The answer is yes only if the input holds the text.
abbrev Typed : Text → Bool → Dialog → Type 0
Typed s answer d = answer ≡ true → d.input_value ≡ s

cancel_ne : text_eq cancel_value confirm_value ≡ false
unfolding text_eq
cancel_ne = refl

step-Typed :
    (e : Event) (s a b : Text) (d : Dialog)
    → Gated s a b d
    → Ends (Gated s a b) (Typed s) (step e d)
unfolding step
step-Typed (type_text v) s a b d w = ground arith
step-Typed press_enter s a b d w = ground (arith, text_eq_iff d.input_value s)
step-Typed click_accept s a b d w = ground (arith, text_eq_iff d.input_value s)
step-Typed press_escape s a b d w = ground (arith, text_eq_iff d.return_value confirm_value)
step-Typed _ s a b d w = ground (arith, cancel_ne)

-- Where the request names a text to type, and the dialog's return value is not "confirm" before,
-- the promise resolves to true only while the input holds exactly that text.
pub run_needs_text :
    (r : Request) (d : Dialog) (s : Text) (es : List Event)
    → required_text r ≡ some s
    → d.return_value ≢ confirm_value
    → (run es (prompt r d)).1 ≡ some true
    → (run es (prompt r d)).0.input_value ≡ s
run_needs_text r d s es h f q =
    let a = trim d.accept_text in
    let b = trim d.reject_text in
    run_resolved Any (Gated s a b) (Typed s) (λ e d' _. step-Typed e s a b d') es (prompt r d) true
      (All-Any es) (prompt-Gated r d s h f) q refl

-- The events that are neither a press of the accept button nor of Enter.
abbrev pub Declines : Event → Type 0
Declines click_accept = ⊥
Declines press_enter = ⊥
Declines _ = Unit

record Fresh (n : Option Text) (a b : Text) (d : Dialog) : Type 0 where
  waiting : Waiting n a b d
  fresh : d.return_value ≢ confirm_value

abbrev Refused : Bool → Dialog → Type 0
Refused answer d = answer ≡ false

step-Refused :
    (e : Event) (n : Option Text) (a b : Text) (d : Dialog)
    → Declines e
    → Fresh n a b d
    → Ends (Fresh n a b) Refused (step e d)
unfolding step
step-Refused (type_text v) none a b d c w = ground arith
step-Refused (type_text v) (some s) a b d c w = ground arith
step-Refused press_escape n a b d c w = ground (arith, text_eq_iff d.return_value confirm_value)
step-Refused press_enter n a b d c w = absurd c
step-Refused click_accept n a b d c w = absurd c
step-Refused _ n a b d c w = ground (arith, cancel_ne)

-- Where the return value is not "confirm" before, and the user presses neither the accept button
-- nor Enter, the promise never resolves to true.
pub run_declined :
    (r : Request) (d : Dialog) (es : List Event)
    → d.return_value ≢ confirm_value
    → All Declines es
    → (run es (prompt r d)).1 ≢ some true
run_declined r d es f c h =
    let a = trim d.accept_text in
    let b = trim d.reject_text in
    let n = required_text r in
    let e : true ≡ false =
      run_resolved Declines (Fresh n a b) Refused (λ e d' k. step-Refused e n a b d' k) es
        (prompt r d) true c (record { waiting = prompt-Waiting r d; fresh = prompt_return r d f })
        h in
    cc
