-- ===== src/Dropdown.antt =====
-- app/javascript/controllers/dropdown_controller.js: a menu that is moved to the end of the body
-- while it is shown. Of the document the model keeps the children of the menu's parent (`siblings`)
-- and those of the body, the number of `autoUpdate` subscriptions, and the document's click listener.
-- The positions come from @floating-ui, as events.
pub mod Placement
mod Examples
use moneygun.Base.{
  ℕ, ◌+◌, ◌-◌, Bool, true, false, not, ◌&&◌, ◌||◌, List, [], ◌∷◌, ◌++◌, Option, none, some, Text,
  keep_if, if◌then◌else◌,
}

pub data Node : Type 0 where
  menu placeholder : Node
  other : ℕ → Node

abbrev pub is_menu : Node → Bool
is_menu menu = true
is_menu _ = false

abbrev pub is_placeholder : Node → Bool
is_placeholder placeholder = true
is_placeholder _ = false

pub record Dropdown : Type 0 where
  pub has_menu : Bool
  pub close_on_click_outside : Bool
  pub is_open : Bool
  pub cleanup : Bool
  pub menu_placeholder : Bool
  pub menu_hidden : Bool
  pub style : Option (Text × Text)
  pub siblings : List Node
  pub body : List Node
  pub updates : ℕ
  pub listening : Bool

-- `node.remove()`, and the half of a move that takes the node from where it was.
detach : (Node → Bool) → List Node → List Node
detach at xs = keep_if (λ n. not (at n)) xs

-- `parent.insertBefore(node, reference)`, for a reference that stands once among the children.
insert_before : Node → (Node → Bool) → List Node → List Node
insert_before n at [] = []
insert_before n at (x ∷ xs) =
    let rest = insert_before n at xs in if at x then n ∷ x ∷ xs else x ∷ rest

-- The part of `show()` behind its guard.
reveal : Dropdown → Dropdown
unfolding detach insert_before
reveal d = record d {
  is_open = true;
  menu_placeholder = true;
  siblings = detach is_menu (insert_before placeholder is_menu d.siblings);
  body = d.body ++ menu ∷ [];
  menu_hidden = false;
  cleanup = true;
  updates = d.updates + 1;
}

pub show : Dropdown → Dropdown
unfolding reveal
show d = if not d.has_menu || d.is_open then d else reveal d

-- The three steps of `hide()` behind its guard.
stop_updates : Dropdown → Dropdown
stop_updates d = if d.cleanup then record d { cleanup = false; updates = d.updates - 1 } else d

hide_menu : Dropdown → Dropdown
hide_menu d = if d.has_menu then record d { menu_hidden = true } else d

put_back : Dropdown → Dropdown
unfolding detach insert_before
put_back d =
    if d.menu_placeholder && d.has_menu
    then record d {
      siblings = detach is_placeholder (insert_before menu is_placeholder d.siblings);
      body = detach is_menu d.body;
      menu_placeholder = false;
    }
    else d

pub hide : Dropdown → Dropdown
unfolding stop_updates hide_menu put_back
hide d =
    if not d.is_open then d else put_back (hide_menu (stop_updates (record d { is_open = false })))

pub toggle : Dropdown → Dropdown
toggle d = if d.is_open then hide d else show d

-- Where a click of the document falls.
pub data Target : Type 0 where
  in_element in_menu outside : Target

abbrev pub is_outside : Target → Bool
is_outside outside = true
is_outside _ = false

pub handle_click_outside : Target → Dropdown → Dropdown
handle_click_outside t d =
    if not d.is_open then d else if is_outside t && d.close_on_click_outside then hide d else d

-- `connect()`, where `found` says whether the element has a menu.
pub connect : Bool → Dropdown → Dropdown
connect found d = record d {
  cleanup = false;
  menu_placeholder = false;
  is_open = false;
  has_menu = found;
  listening = true;
}

pub disconnect : Dropdown → Dropdown
disconnect d = hide (record d { listening = false })

pub data Event : Type 0 where
  toggles : Event
  clicks : Target → Event
  positioned : Text → Text → Event

-- What happens while the controller is connected. A position may come late, after the menu is
-- hidden again.
pub step : Event → Dropdown → Dropdown
unfolding toggle handle_click_outside
step toggles d = toggle d
step (clicks t) d = if d.listening then handle_click_outside t d else d
step (positioned x y) d = record d { style = some (x, y) }

pub run : List Event → Dropdown → Dropdown
run [] d = d
run (e ∷ es) d = run es (step e d)
