-- ===== src/Base/Lists.antt =====
-- Lists measured by native numbers, and predicates on lists by recursion.
use Prim.Native.Nat.{ℕ, suc, ◌+◌}
use mathlib.Core.Path.{◌≡◌, sym, ap, ◌∙◌, subst}
use mathlib.Core.Bool.{Bool, true}
use mathlib.Core.List.{
  List, [], ◌∷◌, ◌++◌, Mem, not-mem-nil, mem-cons, mem-cons_self, mem-cons_of_mem,
}
use mathlib.Core.Logic.{◌↔◌, inl, inr}
use mathlib.Core.Logic.Or
use native.Mathlib.Omega.{arith}
use moneygun.Base.Tests.{if◌then◌else◌, Bool-cases}

module _ {ℓ} {A : Type ℓ} where
  abbrev pub length : List A → ℕ
  length [] = 0
  length (x ∷ xs) = suc (length xs)

  pub length-append : (xs ys : List A) → length (xs ++ ys) ≡ length xs + length ys
  length-append [] ys = omega arith
  length-append (x ∷ xs) ys = omega (arith, length-append xs ys)

  -- A predicate by recursion computes to tuples, which the tactics read and build.
  abbrev pub All {κ} : (A → Type κ) → List A → Type κ
  All P [] = Unit
  All P (x ∷ xs) = P x × All P xs

  -- `xs.filter(p)`.
  abbrev pub keep_if : (A → Bool) → List A → List A
  keep_if p [] = []
  keep_if p (x ∷ xs) = let rest = keep_if p xs in if p x then x ∷ rest else rest

  mem_of_kept :
      (p : A → Bool) (xs : List A) (x : A) → Mem x (keep_if p xs) → Mem x xs × (p x ≡ true)
  mem_of_kept p [] x m = absurd (not-mem-nil m)
  mem_of_kept p (y ∷ ys) x m = elim (Bool-cases (p y)) [
    | inl b ↦
        Or.elim (hlevel) (mem-cons.0 (rw b at m))
          (λ e. (subst (λ z. Mem x (z ∷ ys)) e mem-cons_self, ap p e ∙ b))
          (λ k. let h = mem_of_kept p ys x k in (mem-cons_of_mem y h.0, h.1))
    | inr b ↦ let h = mem_of_kept p ys x (rw b at m) in (mem-cons_of_mem y h.0, h.1)
  ]

  kept_of_mem : (p : A → Bool) (xs : List A) (x : A) → Mem x xs → p x ≡ true → Mem x (keep_if p xs)
  kept_of_mem p [] x m h = absurd (not-mem-nil m)
  kept_of_mem p (y ∷ ys) x m h =
      Or.elim (hlevel) (mem-cons.0 m)
        (λ e.
          let b : p y ≡ true = ap p (sym e) ∙ h in
          rw b (subst (λ z. Mem x (z ∷ keep_if p ys)) e mem-cons_self))
        (λ k.
          let r = kept_of_mem p ys x k h in
          elim (Bool-cases (p y)) [ inl b ↦ rw b (mem-cons_of_mem y r) | inr b ↦ rw b r ])

  -- What is kept is what was there and passes the test.
  pub mem-keep_if :
      (p : A → Bool) (xs : List A) (x : A) → Mem x (keep_if p xs) ↔ (Mem x xs × (p x ≡ true))
  mem-keep_if p xs x = (mem_of_kept p xs x, λ h. kept_of_mem p xs x h.0 h.1)
