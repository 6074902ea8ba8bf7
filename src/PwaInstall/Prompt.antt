-- ===== src/PwaInstall/Prompt.antt =====
-- The install button stands exactly while there is a prompt to show.
use moneygun.Base.{ℕ, suc, ◌≡◌, Bool, true, false, List, [], ◌∷◌, Option, none, some, arith}
use moneygun.PwaInstall.{Install, connect, Event, offered, chosen, step, run}

abbrev pub has_prompt : Option ℕ → Bool
has_prompt none = false
has_prompt (some e) = true

step_shown :
    (e : Event) (s : Install)
    → s.installable ≡ has_prompt s.deferred_prompt
    → (step e s).installable ≡ has_prompt (step e s).deferred_prompt
unfolding step
step_shown (offered k) s h = ground arith
step_shown chosen s h = ground arith
step_shown _ s h = ground arith

run_shown :
    (es : List Event) (s : Install)
    → s.installable ≡ has_prompt s.deferred_prompt
    → (run es s).installable ≡ has_prompt (run es s).deferred_prompt
unfolding run
run_shown [] s h = h
run_shown (e ∷ es) s h = run_shown es (step e s) (step_shown e s h)

connect_shown :
    (s : Install)
    → s.installable ≡ has_prompt s.deferred_prompt
    → (connect s).installable ≡ has_prompt (connect s).deferred_prompt
unfolding connect
connect_shown s h = ground arith

-- After any history of a controller whose button and prompt agree when it connects, the button is
-- shown exactly if a deferred prompt is at hand.
pub button_iff_prompt :
    (es : List Event) (s : Install)
    → s.installable ≡ has_prompt s.deferred_prompt
    → (run es (connect s)).installable ≡ has_prompt (run es (connect s)).deferred_prompt
button_iff_prompt es s h = run_shown es (connect s) (connect_shown s h)

record IsIdle (s : Install) : Type 0 where
  deaf : s.listening ≡ false
  no_prompt : s.deferred_prompt ≡ none
  hidden : s.installable ≡ false
  nothing_shown : s.prompted ≡ []

step-IsIdle : (e : Event) (s : Install) → IsIdle s → IsIdle (step e s)
unfolding step
step-IsIdle (offered k) s h = ground arith
step-IsIdle chosen s h = ground arith
step-IsIdle _ s h = ground arith

run-IsIdle : (es : List Event) (s : Install) → IsIdle s → IsIdle (run es s)
unfolding run
run-IsIdle [] s h = h
run-IsIdle (e ∷ es) s h = run-IsIdle es (step e s) (step-IsIdle e s h)

connect_standalone : (s : Install) → s.standalone ≡ true → connect s ≡ s
unfolding connect
connect_standalone s h = ground arith

-- Where the page already runs as an installed app, no event ever shows the button or a prompt.
pub standalone_stays_idle :
    (es : List Event) (s : Install)
    → s.standalone ≡ true
    → s.listening ≡ false
    → s.deferred_prompt ≡ none
    → s.installable ≡ false
    → s.prompted ≡ []
    → ((run es (connect s)).installable ≡ false) × ((run es (connect s)).prompted ≡ [])
standalone_stays_idle es s alone l d i p =
    let v = run-IsIdle es (connect s) (
      rw (connect_standalone s alone)
        (record { deaf = l; no_prompt = d; hidden = i; nothing_shown = p })) in
    (v.hidden, v.nothing_shown)

-- A prompt that the browser offers while an earlier one awaits the user's choice is dropped when
-- that choice is made, and the button goes with it.
pub offer_while_waiting_lost :
    (s : Install) (n k : ℕ)
    → s.listening ≡ true
    → s.waiting ≡ suc n
    → let t = run (offered k ∷ chosen ∷ []) s in
      (t.deferred_prompt ≡ none) × (t.installable ≡ false)
unfolding run
offer_while_waiting_lost s n k l w = ground arith
