-- ===== src/Transient/Removal.antt =====
-- When an element is gone, and how often a form is submitted.
use moneygun.Base.{
  ℕ, suc, ◌+◌, ◌≤◌, ◌≡◌, refl, ap, true, false, List, [], ◌∷◌, none, ltb, length, arith,
  if◌then◌else◌,
}
use moneygun.Timing.{debounced}
use moneygun.Timing.Debounce.{Burst, debounced-Burst}
use moneygun.Transient.{
  Element, connect_flash, disconnect_flash, connect_auto_remove, elapse, detach, reattach,
  delayed_submits,
}

-- A flash message is in the page exactly up to the end of its delay, and for good if the delay is 0.
pub flash_stays :
    (auto_dismiss now later : ℕ) (e : Element)
    → e.attached ≡ true
    → e.due ≡ none
    → (elapse later (connect_flash auto_dismiss now e)).attached
      ≡ (if ltb 0 auto_dismiss then ltb later (now + auto_dismiss) else true)
unfolding connect_flash elapse
flash_stays auto_dismiss now later e a d = ground arith

-- An element that is taken out of the page and put back before its time: a flash message has lost its
-- timer and stays until it connects again, an element of the auto-remove controller keeps its timer and
-- is removed when that runs.
pub put_back_early :
    (delay now later : ℕ) (e : Element)
    → now + delay ≤ later
    → ((elapse later (reattach (disconnect_flash (detach (connect_flash delay now e))))).attached
        ≡ true)
      × ((elapse later (reattach (detach (connect_auto_remove delay now e)))).attached ≡ false)
unfolding connect_flash disconnect_flash connect_auto_remove elapse detach reattach
put_back_early delay now later e h = ground arith

-- The events of the debounce controller as calls of a debounced function.
abbrev pub calls : List ℕ → List (ℕ × Unit {0})
calls [] = []
calls (t ∷ ts) = (t, tt) ∷ calls ts

length-delayed_submits : (ts : List ℕ) → length (delayed_submits ts) ≡ length ts
unfolding delayed_submits
length-delayed_submits [] = refl
length-delayed_submits (t ∷ ts) = ap suc (length-delayed_submits ts)

-- In a burst of events, each within 300 ms of the one before, the debounce controller submits the
-- form once for every event, where the helper `debounce` would run its function once.
pub debounce_submits_each :
    (t : ℕ) (ts : List ℕ)
    → Burst 300 t (calls ts)
    → (length (delayed_submits (t ∷ ts)) ≡ suc (length ts))
      × (length (debounced 300 none ((t, tt) ∷ calls ts)) ≡ 1)
debounce_submits_each t ts b =
    (length-delayed_submits (t ∷ ts), ap length (debounced-Burst 300 t tt (calls ts) b))
