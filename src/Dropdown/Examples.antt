-- ===== src/Dropdown/Examples.antt =====
-- A menu between two siblings.
use moneygun.Base.{◌≡◌, refl, true, false, [], ◌∷◌, none, arith}
use moneygun.Dropdown.{
  Dropdown, menu, placeholder, other, toggles, clicks, in_menu, disconnect, show, step, run,
}
use moneygun.Dropdown.Placement.{Placed, disconnect_restores}

abbrev nav : Dropdown
nav = record {
  has_menu = true;
  close_on_click_outside = true;
  is_open = false;
  cleanup = false;
  menu_placeholder = false;
  menu_hidden = true;
  style = none;
  siblings = other 1 ∷ menu ∷ other 2 ∷ [];
  body = other 3 ∷ [];
  updates = 0;
  listening = true;
}

moved_out : (run (toggles ∷ []) nav).siblings ≡ other 1 ∷ placeholder ∷ other 2 ∷ []
unfolding run step show
moved_out = refl

nav-Placed : Placed (1 ∷ []) (2 ∷ []) (3 ∷ []) nav
nav-Placed = ground arith

disconnect_restores_example :
    (disconnect (run (toggles ∷ clicks in_menu ∷ []) nav)).siblings ≡ other 1 ∷ menu ∷ other 2 ∷ []
disconnect_restores_example =
    (disconnect_restores (1 ∷ []) (2 ∷ []) (3 ∷ []) (toggles ∷ clicks in_menu ∷ []) nav
      nav-Placed).0
