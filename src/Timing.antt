-- ===== src/Timing.antt =====
-- app/javascript/helpers/timing_helpers.js: `debounce`. The times of the calls, in milliseconds, are
-- the input; the result is the list of the runs of the wrapped function, each with its time and its
-- arguments. A timer that is due when the next call comes has run before it.
pub mod Debounce
mod Examples
use moneygun.Base.{
  ℕ, suc, ◌+◌, ◌≤◌, ◌<◌, ◌≡◌, List, [], ◌∷◌, ◌++◌, Option, none, some, leb, if◌then◌else◌,
}

-- The variable `timeoutId` with the timer behind it: when it is due, and what it will pass on. A
-- timer that has run is `none`, since clearing its id does nothing.
abbrev pub Timeout {ℓ} : Type ℓ → Type ℓ
Timeout A = Option (ℕ × A)

module _ {ℓ} {A : Type ℓ} where
  -- The runs of a timer up to a time, and what is left of it.
  pub elapse : ℕ → Timeout A → List (ℕ × A) × Timeout A
  elapse now none = ([], none)
  elapse now (some (due, args)) =
      if leb due now then ((due, args) ∷ [], none) else ([], some (due, args))

  -- The returned function: `clearTimeout`, then `setTimeout`.
  pub call : ℕ → ℕ → A → Timeout A → Timeout A
  call delay now args timeout = some (now + delay, args)

  -- Once the calls end, the timer that is left runs.
  pub flush : Timeout A → List (ℕ × A)
  flush none = []
  flush (some r) = r ∷ []

  pub debounced : ℕ → Timeout A → List (ℕ × A) → List (ℕ × A)
  unfolding elapse call flush
  debounced delay timeout [] = flush timeout
  debounced delay timeout ((now, args) ∷ cs) =
      (elapse now timeout).0 ++ debounced delay (call delay now args (elapse now timeout).1) cs
