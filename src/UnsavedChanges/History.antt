-- ===== src/UnsavedChanges/History.antt =====
-- The warning against the history of the form.
use moneygun.Base.{◌≡◌, ◌↔◌, Bool, true, false, not, ◌&&◌, ◌||◌, List, [], ◌∷◌, arith}
use moneygun.UnsavedChanges.{
  Form, Event, change, start, finish, connect, before_unload, before_visit, step, run,
}

-- A submission that succeeds.
abbrev is_saved : Event → Bool
is_saved (finish success) = success
is_saved _ = false

abbrev is_finish : Event → Bool
is_finish (finish success) = true
is_finish _ = false

-- Some event of the list is of the kind `p`.
abbrev some_of : (Event → Bool) → List Event → Bool
some_of p [] = false
some_of p (e ∷ es) = p e || some_of p es

-- There is a change in the list that no successful submission follows.
unfoldable pub unsaved : List Event → Bool
unsaved [] = false
unsaved (change ∷ es) = not (some_of is_saved es) || unsaved es
unsaved (start ∷ es) = unsaved es
unsaved (finish b ∷ es) = unsaved es

-- There is a start of a submission in the list that no end follows.
unfoldable pub in_flight : List Event → Bool
in_flight [] = false
in_flight (start ∷ es) = not (some_of is_finish es) || in_flight es
in_flight (change ∷ es) = in_flight es
in_flight (finish b ∷ es) = in_flight es

run_dirty :
    (es : List Event) (f : Form)
    → (run es f).dirty ≡ (unsaved es || (f.dirty && not (some_of is_saved es)))
unfolding run unsaved
run_dirty [] f = ground arith
run_dirty (change ∷ es) f = ground (arith, run_dirty es (step change f))
run_dirty (start ∷ es) f = ground (arith, run_dirty es (step start f))
run_dirty (finish b ∷ es) f = ground (arith, run_dirty es (step (finish b) f))

run_submitting :
    (es : List Event) (f : Form)
    → (run es f).submitting ≡ (in_flight es || (f.submitting && not (some_of is_finish es)))
unfolding run in_flight
run_submitting [] f = ground arith
run_submitting (change ∷ es) f = ground (arith, run_submitting es (step change f))
run_submitting (start ∷ es) f = ground (arith, run_submitting es (step start f))
run_submitting (finish b ∷ es) f = ground (arith, run_submitting es (step (finish b) f))

clean_run :
    (es : List Event) (f : Form)
    → f.dirty ≡ false
    → ((run es (connect f)).dirty ≡ unsaved es) × ((run es (connect f)).submitting ≡ in_flight es)
unfolding connect
clean_run es f h = ground (
  arith,
  run_dirty es (record f { submitting = false }),
  run_submitting es (record f { submitting = false }),
)

-- After any history of a form that connects clean, leaving the page is held up exactly if no
-- submission is under way and there is a change that no successful submission follows.
pub before_unload_iff :
    (es : List Event) (f : Form)
    → f.dirty ≡ false
    → (before_unload (run es (connect f)) ≡ true) ↔ ((in_flight es ≡ false) × (unsaved es ≡ true))
unfolding before_unload
before_unload_iff es f h = ground (arith, clean_run es f h)

-- A Turbo visit is prevented in the same cases, unless the user confirms it.
pub before_visit_iff :
    (es : List Event) (f : Form) (confirmed : Bool)
    → f.dirty ≡ false
    → (before_visit confirmed (run es (connect f)) ≡ true)
      ↔ ((in_flight es ≡ false) × (unsaved es ≡ true) × (confirmed ≡ false))
unfolding before_visit
before_visit_iff es f confirmed h = ground (arith, clean_run es f h)
