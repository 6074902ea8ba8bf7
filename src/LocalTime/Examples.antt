-- ===== src/LocalTime/Examples.antt =====
-- Formats, and a badge.
use moneygun.Base.{◌≡◌, refl, true, none, some}
use moneygun.LocalTime.{update_badge, count_value_changed}

badge_set : update_badge true 3 none ≡ some 3
unfolding update_badge
badge_set = refl

badge_cleared : update_badge true 0 (some 3) ≡ none
unfolding update_badge
badge_cleared = refl

no_count : count_value_changed true none (some 3) ≡ none
unfolding count_value_changed update_badge
no_count = refl
