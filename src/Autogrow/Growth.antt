-- ===== src/Autogrow/Growth.antt =====
-- The loop ends, and what the text area looks like then.
use moneygun.Base.{
  ◌-◌, ℕ, zero, suc, ◌+◌, ◌*◌, ◌≤◌, ◌<◌, ◌≡◌, refl, ◌⊎◌, inl, inr, ◌↔◌, true, false, Option, none,
  some, leb, arith, Bool-cases,
}
use moneygun.Autogrow.{Textarea, must_grow, add_row, grow, set_overflow, resize}

-- The text fits, or the area has its maximal height.
module _ (offset scroll : Option ℕ → ℕ) (max_height line : ℕ) where
  abbrev pub IsGrown : Textarea → Type 0
  IsGrown t = (scroll t.height ≤ offset t.height) ⊎ (max_height * line ≤ offset t.height)

  grow_ends :
      (fuel : ℕ) (t : Textarea)
      → 0 < line
      → ((h : ℕ) → h ≤ offset (some h))
      → max_height * line - offset t.height < fuel
      → (u : Textarea) × (grow offset scroll max_height fuel line t ≡ some u)
        × IsGrown u
        × (u.overflow_auto ≡ t.overflow_auto)
  unfolding grow
  grow_ends zero t p o h = elim h [ ]
  grow_ends (suc fuel) t p o h =
      let u = add_row offset scroll max_height line t in
      elim (Bool-cases (must_grow offset scroll max_height (some line) t)) [
        | inl e ↦ rw e (
            grow_ends fuel u p o
              (unfold must_grow add_row in ground (arith, o (offset t.height + line))))
        | inr e ↦ (t, rw e, (unfold must_grow in ground arith), refl)
      ]

  set_overflow_lem :
      (t : Textarea)
      → t.overflow_auto ≡ false
      → let u = set_overflow offset scroll max_height (some line) t in
        (u.height ≡ t.height) × (u.overflow_auto ≡ leb (max_height * line) (offset t.height))
  unfolding set_overflow
  set_overflow_lem t a = ground arith

  -- What the loop and the scroll bar are for.
  pub record IsSettled (t : Textarea) : Type 0 where
    pub in_view : (scroll t.height ≤ offset t.height) ⊎ (max_height * line ≤ offset t.height)
    pub bar : (t.overflow_auto ≡ true) ↔ (max_height * line ≤ offset t.height)

  settle :
      (t : Textarea)
      → IsGrown t
      → t.overflow_auto ≡ false
      → IsSettled (set_overflow offset scroll max_height (some line) t)
  settle t g a =
      let (same_height, same_bar) = set_overflow_lem t a in
      record { in_view = rw same_height g; bar = rw (same_height, same_bar) (ground arith) }

  -- Where a height in the style is reached at least, and a row has a positive height, resizing ends:
  -- then the whole text is in view, or the area has its maximal number of rows; and it has a scroll
  -- bar exactly in the second case.
  pub resize_ends :
      (fuel : ℕ)
      → 0 < line
      → ((h : ℕ) → h ≤ offset (some h))
      → max_height * line < fuel
      → (u : Textarea) × (resize offset scroll max_height fuel (some line) ≡ some u) × IsSettled u
  unfolding resize
  resize_ends fuel p o h =
      let (u, e, g, a) =
        grow_ends fuel (record { height = none; overflow_auto = false }) p o (omega arith) in
      (set_overflow offset scroll max_height (some line) u, rw e, settle u g a)

-- Where the computed line height is no number, the area keeps its automatic height and hides what
-- does not fit: it never gets a scroll bar.
pub resize_no_number :
    (offset scroll : Option ℕ → ℕ) (max_height fuel : ℕ)
    → resize offset scroll max_height fuel none
      ≡ some (record { height = none; overflow_auto = false })
unfolding resize set_overflow
resize_no_number offset scroll max_height fuel = refl
