-- ===== src/LocalSave/Drafts.antt =====
-- When a draft survives, and when it is gone.
use moneygun.Base.{
  All, ◌≡◌, refl, ◌≢◌, Bool, true, false, List, [], ◌∷◌, Option, none, some, Text, arith,
  if◌then◌else◌,
}
use moneygun.LocalSave.{Page, Event, edit, save_timer, next_frame, submit_end, step, run, load}

-- The stored entry is never the empty string, and a disabled controller has none.
pub record IsSound (p : Page) : Type 0 where
  pub not_empty : p.stored ≢ some []
  pub none_if_disabled : p.disabled ≡ true → p.stored ≡ none

step-IsSound : (e : Event) (p : Page) → IsSound p → IsSound (step e p)
unfolding step
step-IsSound (edit v) p s = ground arith
step-IsSound save_timer p s = ground arith
step-IsSound _ p s = ground arith

run-IsSound : (es : List Event) (p : Page) → IsSound p → IsSound (run es p)
unfolding run
run-IsSound [] p s = s
run-IsSound (e ∷ es) p s = run-IsSound es (step e p) (step-IsSound e p s)

load-IsSound :
    (fresh : Bool) (stored : Option Text) (input : Text) (lexxy : Bool)
    → stored ≢ some []
    → IsSound (load fresh stored input lexxy)
unfolding load
load-IsSound fresh stored input lexxy h = ground arith

step-disabled : (e : Event) (p : Page) → p.disabled ≡ true → (step e p).disabled ≡ true
unfolding step
step-disabled e p h = ground arith

run-disabled : (es : List Event) (p : Page) → p.disabled ≡ true → (run es p).disabled ≡ true
unfolding run
run-disabled [] p h = h
run-disabled (e ∷ es) p h = run-disabled es (step e p) (step-disabled e p h)

load_fresh :
    (stored : Option Text) (input : Text) (lexxy : Bool)
    → ((load true stored input lexxy).disabled ≡ true) × IsSound (load true stored input lexxy)
unfolding load
load_fresh stored input lexxy = ground arith

-- A page that is loaded with `fresh` drops the old draft, and no later event stores one.
pub fresh_stores_nothing :
    (stored : Option Text) (input : Text) (lexxy : Bool) (es : List Event)
    → (run es (load true stored input lexxy)).stored ≡ none
fresh_stores_nothing stored input lexxy es =
    let p = load true stored input lexxy in
    (run-IsSound es p (load_fresh stored input lexxy).1).none_if_disabled
      (run-disabled es p (load_fresh stored input lexxy).0)

-- Whatever happens, the stored entry is never the empty string.
pub stored_not_empty :
    (fresh : Bool) (stored : Option Text) (input : Text) (lexxy : Bool) (es : List Event)
    → stored ≢ some []
    → (run es (load fresh stored input lexxy)).stored ≢ some []
stored_not_empty fresh stored input lexxy es h =
    (run-IsSound es (load fresh stored input lexxy)
      (load-IsSound fresh stored input lexxy h)).not_empty

-- What a later load of the page shows: the draft if there is one, and else what the server sent.
abbrev pub shown : Option Text → Text → Text
shown none server = server
shown (some []) server = server
shown (some (c ∷ cs)) server = c ∷ cs

abbrev pub draft_of : Text → Option Text
draft_of [] = none
draft_of (c ∷ cs) = some (c ∷ cs)

edit_and_save :
    (p : Page) (v : Text)
    → p.disabled ≡ false
    → (run (edit v ∷ save_timer ∷ []) p).stored ≡ draft_of v
unfolding run
edit_and_save p [] h = ground arith
edit_and_save p (c ∷ cs) h = ground arith

load_shows :
    (o : Option Text) (server : Text) (lexxy : Bool)
    → (run (next_frame ∷ []) (load false o server lexxy)).input ≡ shown o server
unfolding run load
load_shows none server lexxy = ground arith
load_shows (some []) server lexxy = ground arith
load_shows (some (c ∷ cs)) server lexxy = ground arith

shown-draft_of : (v server : Text) → v ≢ [] → shown (draft_of v) server ≡ v
shown-draft_of [] server h = absurd (h refl)
shown-draft_of (c ∷ cs) server h = refl

fresh_shows :
    (o : Option Text) (server : Text) (lexxy : Bool)
    → (run (next_frame ∷ []) (load true o server lexxy)).input ≡ server
unfolding run load
fresh_shows o server lexxy = ground arith

-- Save and restore: a non-empty text that is typed and left alone until the timer runs, in a page whose
-- controller is not disabled, as the mode fresh disables it, is in the input again one frame after the
-- page is loaded anew, whatever the server put there, unless it is loaded with the mode fresh: then the
-- input holds what the server put there.
pub restore-save :
    (p : Page) (v server : Text) (fresh lexxy : Bool)
    → p.disabled ≡ false
    → v ≢ []
    → (run
        (next_frame ∷ [])
        (load fresh (run (edit v ∷ save_timer ∷ []) p).stored server lexxy)).input
      ≡ (if fresh then server else v)
restore-save p v server false lexxy h n =
    rw (edit_and_save p v h, load_shows (draft_of v) server lexxy) (shown-draft_of v server n)
restore-save p v server true lexxy h n =
    fresh_shows (run (edit v ∷ save_timer ∷ []) p).stored server lexxy

-- The events that are no input of the user's and no submission.
abbrev pub IsQuiet : Event → Type 0
IsQuiet save_timer = Unit
IsQuiet next_frame = Unit
IsQuiet _ = ⊥

step_quiet :
    (e : Event) (p : Page)
    → IsQuiet e
    → p.stored ≡ none
    → p.save_due ≡ false
    → ((step e p).stored ≡ none) × ((step e p).save_due ≡ false)
unfolding step
step_quiet save_timer p q h k = ground arith
step_quiet next_frame p q h k = ground arith
step_quiet (edit v) p q h k = absurd q
step_quiet (submit_end b) p q h k = absurd q

run_quiet :
    (es : List Event) (p : Page)
    → All IsQuiet es
    → p.stored ≡ none
    → p.save_due ≡ false
    → (run es p).stored ≡ none
unfolding run
run_quiet [] p q h k = h
run_quiet (e ∷ es) p q h k = let s = step_quiet e p q.0 h k in run_quiet es (step e p) q.1 s.0 s.1

-- A successful submission with no save pending leaves no draft, also after any number of timers
-- and frames.
pub submit_clears :
    (p : Page) (es : List Event)
    → All IsQuiet es
    → p.save_due ≡ false
    → (run (submit_end true ∷ es) p).stored ≡ none
unfolding run
submit_clears p es q h =
    run_quiet es (step (submit_end true) p) q (unfold step in ground arith)
      (unfold step in ground arith)

-- A save that is still pending when the form is submitted brings the draft back: the entry that the
-- submission removed is stored again when the timer runs.
pub submit_then_timer :
    (p : Page) (v : Text)
    → p.disabled ≡ false
    → v ≢ []
    → ((run (edit v ∷ submit_end true ∷ []) p).stored ≡ none)
      × ((run (edit v ∷ submit_end true ∷ save_timer ∷ []) p).stored ≡ some v)
unfolding run
submit_then_timer p [] h n = absurd (n refl)
submit_then_timer p (c ∷ cs) h n = ground arith
