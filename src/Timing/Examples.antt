-- ===== src/Timing/Examples.antt =====
-- Keystrokes and the saves that they cause.
use moneygun.Base.{ℕ, ◌≡◌, refl, List, [], ◌∷◌, none}
use moneygun.Timing.{debounced}
use moneygun.Timing.Debounce.{debounced-undisturbed, undisturbed}

abbrev keys : List (ℕ × ℕ)
keys = (100, 2) ∷ (250, 3) ∷ (900, 4) ∷ []

typing : debounced 300 none ((0, 1) ∷ keys) ≡ (550, 3) ∷ (1200, 4) ∷ []
unfolding debounced
typing = refl

debounced-undisturbed_example : debounced 300 none ((0, 1) ∷ keys) ≡ undisturbed 300 (0, 1) keys
debounced-undisturbed_example = debounced-undisturbed 300 0 1 keys
