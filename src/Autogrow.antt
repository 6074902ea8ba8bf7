-- ===== src/Autogrow.antt =====
-- app/javascript/controllers/simple_form/autogrow_controller.js: a text area that grows by rows. The
-- browser's layout is a parameter: `offset` and `scroll` give the `offsetHeight` and `scrollHeight` at
-- a height in the style, where `none` is `auto`. The computed line height is `none` where `parseFloat`
-- gives NaN, as for the keyword `normal`; heights are whole pixels.
pub mod Growth
mod Examples
use moneygun.Base.{
  ℕ, zero, suc, ◌+◌, ◌*◌, Bool, true, false, ◌&&◌, Option, none, some, ltb, leb, if◌then◌else◌,
}

pub record Textarea : Type 0 where
  pub height : Option ℕ
  pub overflow_auto : Bool

module _ (offset scroll : Option ℕ → ℕ) (max_height : ℕ) where
  -- The condition of the loop; a comparison with NaN is false.
  pub must_grow : Option ℕ → Textarea → Bool
  must_grow none t = false
  must_grow (some line) t =
      ltb (offset t.height) (scroll t.height) && ltb (offset t.height) (max_height * line)

  -- The body of the loop: one row more.
  pub add_row : ℕ → Textarea → Textarea
  add_row line t = record t { height = some (offset t.height + line) }

  -- The loop, with fuel; `none` is fuel that ran out.
  pub grow : ℕ → ℕ → Textarea → Option Textarea
  unfolding must_grow add_row
  grow zero line t = none
  grow (suc fuel) line t =
      let rest = grow fuel line (add_row line t) in if must_grow (some line) t then rest else some t

  -- The scroll bar, once the loop is over.
  pub set_overflow : Option ℕ → Textarea → Textarea
  set_overflow none t = t
  set_overflow (some line) t =
      if leb (max_height * line) (offset t.height) then record t { overflow_auto = true } else t

  abbrev pub reset : Textarea
  reset = record { height = none; overflow_auto = false }

  finish : Option Textarea → Option ℕ → Option Textarea
  finish none line = none
  finish (some t) line = some (set_overflow line t)

  -- `resize()`: with no line height to compare with, the loop does not run.
  pub resize : ℕ → Option ℕ → Option Textarea
  unfolding finish grow
  resize fuel none = some (set_overflow none reset)
  resize fuel (some line) = finish (grow fuel line reset) (some line)
