-- ===== src/Dropdown/Placement.antt =====
-- Where the menu stands, after any history.
use mathlib.Core.List.{append-nil}
use moneygun.Base.{
  ◌↔◌, ◌∙◌, ℕ, ◌≡◌, refl, ap, Bool, true, false, not, List, [], ◌∷◌, ◌++◌, if◌then◌else◌, arith,
}
use moneygun.Dropdown.{
  Node, menu, placeholder, other, is_menu, is_placeholder, Dropdown, detach, insert_before, show,
  hide, toggle, Target, in_element, outside, handle_click_outside, disconnect, Event, toggles,
  clicks, positioned, step, run,
}

-- The nodes that are neither a menu of this controller nor its placeholder.
abbrev pub others : List ℕ → List Node
others [] = []
others (k ∷ ks) = other k ∷ others ks

detach-others :
    (at : Node → Bool) (ks : List ℕ) (ns : List Node)
    → ((k : ℕ) → at (other k) ≡ false)
    → detach at (others ks ++ ns) ≡ others ks ++ detach at ns
unfolding detach
detach-others at [] ns h = refl
detach-others at (k ∷ ks) ns h = ground (arith, h k, detach-others at ks ns h)

insert_before-others :
    (n : Node) (at : Node → Bool) (ks : List ℕ) (ns : List Node)
    → ((k : ℕ) → at (other k) ≡ false)
    → insert_before n at (others ks ++ ns) ≡ others ks ++ insert_before n at ns
unfolding insert_before
insert_before-others n at [] ns h = refl
insert_before-others n at (k ∷ ks) ns h = ground (arith, h k, insert_before-others n at ks ns h)

detach-others_all :
    (at : Node → Bool) (ks : List ℕ)
    → ((k : ℕ) → at (other k) ≡ false)
    → detach at (others ks) ≡ others ks
unfolding detach
detach-others_all at [] h = refl
detach-others_all at (k ∷ ks) h = ground (arith, h k, detach-others_all at ks h)

-- Moving the menu out, and moving it back, around any other nodes.
swap_out :
    (xs ys : List ℕ)
    → detach is_menu (insert_before placeholder is_menu (others xs ++ menu ∷ others ys))
      ≡ others xs ++ placeholder ∷ others ys
unfolding detach insert_before
swap_out xs ys =
    ap (detach is_menu) (insert_before-others placeholder is_menu xs (menu ∷ others ys) (λ k. refl))
    ∙ detach-others is_menu xs (placeholder ∷ menu ∷ others ys) (λ k. refl)
    ∙ ap (λ z. others xs ++ placeholder ∷ z) (detach-others_all is_menu ys (λ k. refl))

swap_back :
    (xs ys : List ℕ)
    → detach is_placeholder
        (insert_before menu is_placeholder (others xs ++ placeholder ∷ others ys))
      ≡ others xs ++ menu ∷ others ys
unfolding detach insert_before
swap_back xs ys =
    ap (detach is_placeholder)
      (insert_before-others menu is_placeholder xs (placeholder ∷ others ys) (λ k. refl))
    ∙ detach-others is_placeholder xs (menu ∷ placeholder ∷ others ys) (λ k. refl)
    ∙ ap (λ z. others xs ++ menu ∷ z) (detach-others_all is_placeholder ys (λ k. refl))

body_back : (bs : List ℕ) → detach is_menu (others bs ++ menu ∷ []) ≡ others bs
unfolding detach
body_back bs = detach-others is_menu bs (menu ∷ []) (λ k. refl) ∙ append-nil (others bs)

-- The menu stands between `xs` and `ys` while it is hidden; while it is shown, the placeholder stands
-- there and the menu at the end of the body, behind `bs`. The flags and the one subscription agree
-- with that.
pub record Placed (xs ys bs : List ℕ) (d : Dropdown) : Type 0 where
  pub found : d.has_menu ≡ true
  pub subscribed : d.cleanup ≡ d.is_open
  pub held : d.menu_placeholder ≡ d.is_open
  pub hidden : d.menu_hidden ≡ not d.is_open
  pub counted : d.updates ≡ (if d.is_open then 1 else 0)
  pub in_parent :
      d.siblings
      ≡ (if d.is_open then others xs ++ placeholder ∷ others ys else others xs ++ menu ∷ others ys)
  pub in_body : d.body ≡ (if d.is_open then others bs ++ menu ∷ [] else others bs)

module _ (xs ys bs : List ℕ) where
  show-Placed : (d : Dropdown) → Placed xs ys bs d → Placed xs ys bs (show d)
  unfolding show
  show-Placed d p = ground (arith, swap_out xs ys)

  hide-Placed : (d : Dropdown) → Placed xs ys bs d → Placed xs ys bs (hide d)
  unfolding hide
  hide-Placed d p = ground (arith, swap_back xs ys, body_back bs)

  hide_closes : (d : Dropdown) → (hide d).is_open ≡ false
  unfolding hide
  hide_closes d = ground arith

  step-Placed : (e : Event) (d : Dropdown) → Placed xs ys bs d → Placed xs ys bs (step e d)
  unfolding step toggle handle_click_outside
  step-Placed toggles d p = ground (arith, show-Placed d p, hide-Placed d p)
  step-Placed (clicks t) d p = ground (arith, hide-Placed d p)
  step-Placed (positioned x y) d p = ground arith

  run-Placed : (es : List Event) (d : Dropdown) → Placed xs ys bs d → Placed xs ys bs (run es d)
  unfolding run
  run-Placed [] d p = p
  run-Placed (e ∷ es) d p = run-Placed es (step e d) (step-Placed e d p)

-- Whatever was toggled, clicked and positioned before, once the controller disconnects the menu is
-- hidden and back at its place among its siblings, the body is as it was, and neither a subscription
-- nor the document's listener is left.
pub disconnect_restores :
    (xs ys bs : List ℕ) (es : List Event) (d : Dropdown)
    → Placed xs ys bs d
    → let e = disconnect (run es d) in
      (e.siblings ≡ others xs ++ menu ∷ others ys)
      × (e.body ≡ others bs)
      × (e.updates ≡ 0)
      × (e.menu_hidden ≡ true)
      × (e.listening ≡ false)
unfolding disconnect hide
disconnect_restores xs ys bs es d p =
    ground (arith, run-Placed xs ys bs es d p, swap_back xs ys, body_back bs)

-- Toggling a hidden menu twice changes nothing at all.
pub toggle-toggle :
    (xs ys bs : List ℕ) (d : Dropdown)
    → Placed xs ys bs d
    → d.is_open ≡ false
    → toggle (toggle d) ≡ d
unfolding toggle show hide
toggle-toggle xs ys bs d p h = ground (arith, swap_out xs ys, swap_back xs ys, body_back bs)

-- A click of the document closes an open menu exactly if it falls outside both the element and the
-- menu and the option `closeOnClickOutside` is on.
pub click_closes :
    (t : Target) (d : Dropdown)
    → d.is_open ≡ true
    → d.listening ≡ true
    → ((step (clicks t) d).is_open ≡ false) ↔ ((t ≡ outside) × (d.close_on_click_outside ≡ true))
unfolding step handle_click_outside hide
click_closes in_element d h l = ground arith
click_closes _ d h l = ground arith
