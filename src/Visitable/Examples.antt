-- ===== src/Visitable/Examples.antt =====
-- Clicks in a row of a table, and shortcut keys.
use moneygun.Base.{◌≡◌, refl, true, [], ◌∷◌, none, some, codes, text_eq}
use moneygun.Visitable.{
  Element, Target, Area, other_role, button_role, no_visit, on_visit, matches, closest,
  is_interactive_element,
}

abbrev cell : Element
cell = record { tag_name = codes "TD"; role = other_role }

abbrev in_cell : Target
in_cell = record { is_connected = true; chain = cell ∷ [] }

abbrev row : Area
row = record { url = some (codes "/p/1"); turbo_frame = some (codes "modal"); turbo_action = none }

button_keeps :
    on_visit (record in_cell { chain = record cell { role = button_role } ∷ cell ∷ [] }) row
    ≡ no_visit
unfolding on_visit is_interactive_element closest matches text_eq
button_keeps = refl
