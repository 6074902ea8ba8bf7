-- ===== src/Closure/Purging.antt =====
-- What a run of the purge job takes away.
use moneygun.Base.{
  ℕ, ◌≡◌, refl, Bool, true, false, not, ◌&&◌, ◌||◌, List, [], ◌∷◌, ◌++◌, arith, keep_if,
  mem-keep_if, All, Option, none, some, ◌+◌, ◌≤◌, ◌↔◌, Bool-cases, Option-cases, inl, inr, sym,
}
use mathlib.Core.Path.{subst}
use mathlib.Core.List.{Mem}
use moneygun.Closure.{
  Subscription, Tenant, is_none, endless, active_subscription, past, due, skip, purge,
}

-- The subscription of the organization has no end.
abbrev pub IsSubscribed : Tenant → Type 0
IsSubscribed t = (s : Subscription) × (t.subscription ≡ some s) × (s.ends_at ≡ none)

endless-IsSubscribed :
    (t : Tenant) (o : Option Subscription) → t.subscription ≡ o → endless o ≡ true → IsSubscribed t
unfolding endless is_none
endless-IsSubscribed t none e h = cc
endless-IsSubscribed t (some s) e h = elim (Option-cases s.ends_at) [
  | inl n ↦ (s, e, n)
  | inr (d, n) ↦ cc (n, h)
]

active-IsSubscribed : (t : Tenant) → active_subscription t ≡ true → IsSubscribed t
unfolding active_subscription
active-IsSubscribed t h = endless-IsSubscribed t t.subscription refl h

module _ (window : ℕ) where
  -- Whether the job meets an organization that it cannot purge.
  abbrev pub stops : ℕ → List Tenant → Bool
  stops now [] = false
  stops now (t ∷ ts) = (due window now t && active_subscription t) || stops now ts

  -- What a run keeps that comes to its end.
  abbrev pub kept : ℕ → List Tenant → List Tenant
  kept now ts = keep_if (λ t. not (due window now t)) ts

  -- The organization was deleted, and the recovery window is over.
  abbrev pub IsOverdue : ℕ → Tenant → Type 0
  IsOverdue now t = (d : ℕ) × (t.deleted_at ≡ some d) × (d + window ≤ now)

  past-IsOverdue :
      (now : ℕ) (t : Tenant) (o : Option ℕ)
      → t.deleted_at ≡ o
      → past window now o ≡ true
      → IsOverdue now t
  unfolding past
  past-IsOverdue now t none e h = cc
  past-IsOverdue now t (some d) e h = (d, e, ground (arith, h))

  due_iff : (now : ℕ) (t : Tenant) → (due window now t ≡ true) ↔ IsOverdue now t
  unfolding due past
  due_iff now t =
      (λ h. past-IsOverdue now t t.deleted_at refl h, λ (d, e, l). rw e (ground (arith, l)))

  purge-kept :
      (now : ℕ) (ts : List Tenant)
      → stops now ts ≡ false
      → ((purge window now ts).1 ≡ true) × ((purge window now ts).0 ≡ kept now ts)
  unfolding purge skip
  purge-kept now [] h = (refl, refl)
  purge-kept now (t ∷ ts) h = ground (arith, h, purge-kept now ts)

  unblocked-stops :
      (now : ℕ) (ts : List Tenant)
      → All (λ t. IsOverdue now t → ¬ IsSubscribed t) ts
      → stops now ts ≡ false
  unblocked-stops now [] h = refl
  unblocked-stops now (t ∷ ts) h =
      let rest = unblocked-stops now ts h.1 in
      elim (Bool-cases (due window now t && active_subscription t)) [
        | inl b ↦ absurd (
            h.0 ((due_iff now t).0 (ground (arith, b))) (active-IsSubscribed t (ground (arith, b))))
        | inr b ↦ ground (arith, b, rest)
      ]

  mem-kept :
      (now : ℕ) (ts : List Tenant) (t : Tenant)
      → Mem t (kept now ts) ↔ (Mem t ts × (¬ IsOverdue now t))
  mem-kept now ts t =
      let m = mem-keep_if (λ x. not (due window now x)) ts t in
      (
        λ h. ((m.0 h).0, λ o. let p = (m.0 h).1 in let d = (due_iff now t).1 o in cc (p, d)),
        λ h. elim (Bool-cases (due window now t)) [
          | inl b ↦ absurd (h.1 ((due_iff now t).0 b))
          | inr b ↦ m.1 (h.0, ground (arith, b))
        ],
      )

  -- Where no organization that was deleted before the recovery window has a subscription without an end,
  -- the step of the job that purges organizations comes to its end, and exactly the organizations are
  -- left that were there and were not deleted before the window.
  pub purge_exact :
      (now : ℕ) (ts : List Tenant)
      → All (λ t. IsOverdue now t → ¬ IsSubscribed t) ts
      → ((purge window now ts).1 ≡ true)
        × ((t : Tenant) → Mem t (purge window now ts).0 ↔ (Mem t ts × (¬ IsOverdue now t)))
  purge_exact now ts h =
      let k = purge-kept now ts (unblocked-stops now ts h) in
      (
        k.0,
        λ t.
            subst (λ left. Mem t left ↔ (Mem t ts × (¬ IsOverdue now t))) (sym k.1)
              (mem-kept now ts t),
      )

  -- An organization that was deleted before the recovery window and has an active subscription keeps
  -- all behind it from being purged, where none before it does so: they are there after the run.
  pub purge_stuck :
      (now : ℕ) (t : Tenant) (before after : List Tenant)
      → stops now before ≡ false
      → due window now t ≡ true
      → active_subscription t ≡ true
      → (purge window now (before ++ t ∷ after)).0 ≡ kept now before ++ t ∷ after
  unfolding purge skip
  purge_stuck now t [] after s d a = rw (d, a) refl
  purge_stuck now t (b ∷ bs) after s d a =
      ground (arith, purge_stuck now t bs after (ground (arith, s)) d a, s)
