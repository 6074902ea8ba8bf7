-- ===== src/Tooltip/Visibility.antt =====
-- One tooltip at most, none left behind, and what a late position does.
use moneygun.Base.{
  Option-cases, inl, inr, ◌↔◌, ℕ, ◌≡◌, refl, ap, Bool, true, false, not, List, [], ◌∷◌, ◌++◌,
  Option, none, some, Text, keep_if, if◌then◌else◌, arith,
}
use moneygun.Tooltip.{
  Node, tip, other, is_tip, Tip, Tooltip, type_error, show, hide, disconnect, positioned, Event,
  shows, hides, positions, state_of, step, run,
}

abbrev pub others : List ℕ → List Node
others [] = []
others (k ∷ ks) = other k ∷ others ks

body_back :
    (ks : List ℕ) (s : Text) → keep_if (λ n. not (is_tip n)) (others ks ++ tip s ∷ []) ≡ others ks
body_back [] s = refl
body_back (k ∷ ks) s = ap (λ z. other k ∷ z) (body_back ks s)

-- While there is a tooltip, it is the last node of the body and one subscription runs; otherwise
-- neither is there.
abbrev Body : List ℕ → Option Tip → List Node → Type 0
Body bs none ns = ns ≡ others bs
Body bs (some e) ns = ns ≡ others bs ++ tip e.text ∷ []

abbrev pub shown : Option Tip → Bool
shown none = false
shown (some e) = true

pub record Placed (bs : List ℕ) (t : Tooltip) : Type 0 where
  pub subscribed : t.cleanup ≡ shown t.tooltip
  pub counted : t.updates ≡ (if shown t.tooltip then 1 else 0)
  pub in_body : Body bs t.tooltip t.body

module _ (bs : List ℕ) where
  show-Placed : (t : Tooltip) → Placed bs t → Placed bs (show t)
  unfolding show
  show-Placed t p = ground arith

  hide-Placed : (t : Tooltip) → Placed bs t → Placed bs (hide t)
  unfolding hide
  hide-Placed t p = elim (Option-cases t.tooltip) [
    | inl e ↦ ground arith
    | inr (x, e) ↦ ground (arith, body_back bs x.text)
  ]

  step-Placed : (e : Event) (t : Tooltip) → Placed bs t → Placed bs (state_of (step e t))
  unfolding step positioned
  step-Placed shows t p = show-Placed t p
  step-Placed hides t p = hide-Placed t p
  step-Placed (positions x y) t p = ground arith

  run-Placed : (es : List Event) (t : Tooltip) → Placed bs t → Placed bs (run es t)
  unfolding run
  run-Placed [] t p = p
  run-Placed (e ∷ es) t p = run-Placed es (state_of (step e t)) (step-Placed e t p)

hide_hides : (t : Tooltip) → (hide t).tooltip ≡ none
unfolding hide
hide_hides t = ground arith

-- Whatever was shown and hidden before, a controller that disconnects leaves no tooltip in the body
-- and no subscription.
pub disconnect_removes :
    (bs : List ℕ) (es : List Event) (t : Tooltip)
    → Placed bs t
    → let u = disconnect (run es t) in (u.body ≡ others bs) × (u.updates ≡ 0) × (u.tooltip ≡ none)
unfolding disconnect
disconnect_removes bs es t p =
    ground (arith, hide-Placed bs (run es t) (run-Placed bs es t p), hide_hides (run es t))

-- A position that arrives after the tooltip is hidden, with no `show` in between, throws.
pub late_position_throws :
    (t : Tooltip) (x y : Text)
    → step (positions x y) (state_of (step hides t)) ≡ type_error (hide t)
unfolding step positioned hide
late_position_throws t x y = ground arith

-- A position throws exactly if there is no tooltip.
pub position_throws_iff :
    (t : Tooltip) (x y : Text) → (step (positions x y) t ≡ type_error t) ↔ (t.tooltip ≡ none)
unfolding step positioned
position_throws_iff t x y = ground arith

-- Showing a tooltip that is shown changes nothing, and hiding one that is hidden neither.
pub show-hide_idem : (t : Tooltip) → (show (show t) ≡ show t) × (hide (hide t) ≡ hide t)
unfolding show hide
show-hide_idem t = ground arith
