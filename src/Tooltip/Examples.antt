-- ===== src/Tooltip/Examples.antt =====
-- A tooltip beside another one.
use moneygun.Base.{◌≡◌, refl, false, [], ◌∷◌, none, codes, arith}
use moneygun.Tooltip.{Tooltip, tip, other, show, shows, step, run}
use moneygun.Tooltip.Visibility.{Placed}

abbrev help : Tooltip
help = record {
  content = codes "Help";
  tooltip = none;
  cleanup = false;
  body = other 1 ∷ [];
  updates = 0;
}

shown_tip : (run (shows ∷ shows ∷ []) help).body ≡ other 1 ∷ tip (codes "Help") ∷ []
unfolding run step show
shown_tip = refl

help-Placed : Placed (1 ∷ []) help
help-Placed = ground arith
