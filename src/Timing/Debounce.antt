-- ===== src/Timing/Debounce.antt =====
-- Which calls of a debounced function run.
use mathlib.Core.Path.{subst}
use moneygun.Base.{
  ℕ, ◌+◌, ◌≤◌, ◌<◌, ◌≡◌, refl, sym, ◌∙◌, true, false, List, [], ◌∷◌, none, some, leb, if◌then◌else◌,
  arith,
}
use moneygun.Timing.{debounced}

module _ {ℓ} {A : Type ℓ} where
  -- The calls come in order of time.
  abbrev pub Ordered : ℕ → List (ℕ × A) → Type 0
  Ordered from [] = Unit
  Ordered from ((t, a) ∷ cs) = (from ≤ t) × Ordered t cs

  -- Each call comes before the delay of the one ahead of it is over.
  abbrev pub Burst : ℕ → ℕ → List (ℕ × A) → Type 0
  Burst delay from [] = Unit
  Burst delay from ((t, a) ∷ cs) = (t < from + delay) × Burst delay t cs

  -- The last of the calls that begin with one.
  abbrev pub last_call : ℕ × A → List (ℕ × A) → ℕ × A
  last_call c [] = c
  last_call c (d ∷ cs) = last_call d cs

  -- A description with no timer: a call runs `delay` later, unless another comes before that.
  pub undisturbed : ℕ → ℕ × A → List (ℕ × A) → List (ℕ × A)
  undisturbed delay (t, a) [] = (t + delay, a) ∷ []
  undisturbed delay (t, a) ((u, b) ∷ cs) =
      let rest = undisturbed delay (u, b) cs in
      if leb (t + delay) u then (t + delay, a) ∷ rest else rest

  debounced-undisturbed_from :
      (delay t : ℕ) (a : A) (cs : List (ℕ × A))
      → debounced delay (some (t + delay, a)) cs ≡ undisturbed delay (t, a) cs
  unfolding debounced undisturbed
  debounced-undisturbed_from delay t a [] = refl
  debounced-undisturbed_from delay t a ((u, b) ∷ cs) =
      ground (arith, debounced-undisturbed_from delay u b cs)

  -- The debounced function runs exactly those calls that no other call follows within the delay,
  -- each of them `delay` after it was made and with its own arguments.
  pub debounced-undisturbed :
      (delay t : ℕ) (a : A) (cs : List (ℕ × A))
      → debounced delay none ((t, a) ∷ cs) ≡ undisturbed delay (t, a) cs
  unfolding debounced
  debounced-undisturbed delay t a cs = debounced-undisturbed_from delay t a cs

  undisturbed-Burst :
      (delay t : ℕ) (a : A) (cs : List (ℕ × A))
      → Burst delay t cs
      → undisturbed delay (t, a) cs
        ≡ ((last_call (t, a) cs).0 + delay, (last_call (t, a) cs).1) ∷ []
  unfolding undisturbed
  undisturbed-Burst delay t a [] h = refl
  undisturbed-Burst delay t a ((u, b) ∷ cs) h = ground (arith, undisturbed-Burst delay u b cs h.1)

  -- A burst of calls, each within the delay of the one before, runs the function once: with the
  -- arguments of the last call, and `delay` after it.
  pub debounced-Burst :
      (delay t : ℕ) (a : A) (cs : List (ℕ × A))
      → Burst delay t cs
      → debounced delay none ((t, a) ∷ cs)
        ≡ ((last_call (t, a) cs).0 + delay, (last_call (t, a) cs).1) ∷ []
  debounced-Burst delay t a cs h =
      debounced-undisturbed delay t a cs ∙ undisturbed-Burst delay t a cs h

  -- Two runs that follow one another are at least `delay` apart.
  abbrev pub Spaced : ℕ → List (ℕ × A) → Type 0
  Spaced delay [] = Unit
  Spaced delay (r ∷ []) = Unit
  Spaced delay ((t, a) ∷ (u, b) ∷ rs) = (t + delay ≤ u) × Spaced delay ((u, b) ∷ rs)

  abbrev StartsAfter : ℕ → List (ℕ × A) → Type 0
  StartsAfter t [] = Unit
  StartsAfter t ((u, a) ∷ rs) = t ≤ u

  undisturbed-StartsAfter :
      (delay t from : ℕ) (a : A) (cs : List (ℕ × A))
      → Ordered t cs
      → from ≤ t + delay
      → StartsAfter from (undisturbed delay (t, a) cs)
  unfolding undisturbed
  undisturbed-StartsAfter delay t from a [] o h = h
  undisturbed-StartsAfter delay t from a ((u, b) ∷ cs) o h =
      ground (arith, undisturbed-StartsAfter delay u from b cs o.1)

  Spaced-cons :
      (delay t : ℕ) (a : A) (rs : List (ℕ × A))
      → StartsAfter (t + delay) rs
      → Spaced delay rs
      → Spaced delay ((t, a) ∷ rs)
  Spaced-cons delay t a [] h s = tt
  Spaced-cons delay t a ((u, b) ∷ rs) h s = (h, s)

  undisturbed-Spaced :
      (delay t : ℕ) (a : A) (cs : List (ℕ × A))
      → Ordered t cs
      → Spaced delay (undisturbed delay (t, a) cs)
  unfolding undisturbed
  undisturbed-Spaced delay t a [] o = tt
  undisturbed-Spaced delay t a ((u, b) ∷ cs) o =
      elim (leb (t + delay) u)
          as (λ c.
            leb (t + delay) u ≡ c
            → Spaced delay (
                if c
                then (t + delay, a) ∷ undisturbed delay (u, b) cs
                else undisturbed delay (u, b) cs)) [
                  | true ↦ λ e.
                      Spaced-cons delay (t + delay) a _
                        (undisturbed-StartsAfter delay u (t + delay + delay) b cs o.1
                          (ground arith))
                        (undisturbed-Spaced delay u b cs o.1)
                  | false ↦ λ e. undisturbed-Spaced delay u b cs o.1
                ]
        refl

  -- However the calls come, two runs of the debounced function are at least `delay` apart.
  pub debounced-Spaced :
      (delay t : ℕ) (a : A) (cs : List (ℕ × A))
      → Ordered t cs
      → Spaced delay (debounced delay none ((t, a) ∷ cs))
  debounced-Spaced delay t a cs o =
      subst (Spaced delay) (sym (debounced-undisturbed delay t a cs))
        (undisturbed-Spaced delay t a cs o)
