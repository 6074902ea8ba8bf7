-- ===== src/UnsavedChanges/Examples.antt =====
-- A form that is edited, submitted and edited again.
use moneygun.Base.{◌≡◌, refl, true, false, [], ◌∷◌}
use moneygun.UnsavedChanges.{Form, change, start, finish, connect, before_unload, run}
use moneygun.UnsavedChanges.History.{before_unload_iff, unsaved, in_flight}

abbrev form : Form
form = record { dirty = false; submitting = true }

before_unload_iff_example :
    before_unload (run (start ∷ finish true ∷ change ∷ []) (connect form)) ≡ true
unfolding unsaved in_flight
before_unload_iff_example =
    (before_unload_iff (start ∷ finish true ∷ change ∷ []) form refl).1 (refl, refl)
