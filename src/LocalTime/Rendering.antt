-- ===== src/LocalTime/Rendering.antt =====
-- What the reader sees of a time.
use moneygun.Base.{
  ℕ, none, List, [], ◌∷◌, ◌++◌, Bool-cases, sym, ◌∙◌, ◌≡◌, ◌≢◌, refl, ◌↔◌, ◌⊎◌, inl, inr, Bool,
  true, false, Option, Text, codes, text_eq, text_eq_iff, text_ne, arith,
}
use moneygun.LocalTime.{
  Style, date_and_time, date_only, format_style, update, Time, connect, run_badge,
  count_value_changed, update_badge,
}

abbrev pub shows_time : Style → Bool
shows_time (date_and_time p) = true
shows_time (date_only p) = false

abbrev pub shows_year : Style → Bool
shows_year (date_and_time p) = p.year
shows_year (date_only p) = p.year

long_ne_short : codes "long" ≢ codes "short_time"
unfolding text_eq
long_ne_short = text_ne _ _ refl

time_tests :
    (format : Text)
    → (shows_time (format_style format) ≡ true)
      ↔ ((text_eq format (codes "long") ≡ true) ⊎ (text_eq format (codes "short_time") ≡ true))
unfolding format_style
time_tests format = elim (Bool-cases (text_eq format (codes "long"))) [
  | inl e ↦ rw e (ground arith)
  | inr e ↦ rw e (elim (Bool-cases (text_eq format (codes "short_time"))) [
    | inl f ↦ rw f (ground arith)
    | inr f ↦ rw f (ground arith)
  ])
]

year_tests :
    (format : Text)
    → (shows_year (format_style format) ≡ false)
      ↔ ((text_eq format (codes "long") ≡ false) × (text_eq format (codes "short_time") ≡ true))
unfolding format_style
year_tests format = elim (Bool-cases (text_eq format (codes "long"))) [
  | inl e ↦ rw e (ground arith)
  | inr e ↦ rw e (elim (Bool-cases (text_eq format (codes "short_time"))) [
    | inl f ↦ rw f (ground arith)
    | inr f ↦ rw f (ground arith)
  ])
]

-- The time of day is shown exactly in the formats "long" and "short_time", and the year is left out
-- exactly in "short_time"; a format that the controller does not know is a short one.
pub format_shows :
    (format : Text)
    → ((shows_time (format_style format) ≡ true)
        ↔ ((format ≡ codes "long") ⊎ (format ≡ codes "short_time")))
      × ((shows_year (format_style format) ≡ false) ↔ (format ≡ codes "short_time"))
format_shows format =
    let l = text_eq_iff format (codes "long") in
    let s = text_eq_iff format (codes "short_time") in
    let t = time_tests format in
    let y = year_tests format in
    (
      (
        λ h. elim (t.0 h) [ inl e ↦ inl (l.0 e) | inr e ↦ inr (s.0 e) ],
        λ h. t.1 (elim h [ inl e ↦ inl (l.1 e) | inr e ↦ inr (s.1 e) ]),
      ),
      (λ h. s.0 (y.0 h).1, λ h. y.1 (not_long h, s.1 h)),
    )
  where
    not_long : format ≡ codes "short_time" → text_eq format (codes "long") ≡ false
    not_long h = elim (Bool-cases (text_eq format (codes "long"))) [
      | inl e ↦ absurd (long_ne_short (sym ((text_eq_iff format (codes "long")).0 e) ∙ h))
      | inr e ↦ e
    ]

-- A date that does not parse leaves the content as it is, which rendering twice also does not change.
pub update_idem :
    {Date : Type 0} (parse : Text → Option Date) (write : Style → Date → Text)
    (datetime format content : Text)
    → update parse write datetime format (update parse write datetime format content)
      ≡ update parse write datetime format content
unfolding update
update_idem parse write datetime format content = ground arith

-- A controller that connects again, as after a visit that restores the page, changes nothing.
pub connect_idem :
    {Date : Type 0} (parse : Text → Option Date) (write : Style → Date → Text) (t : Time)
    → connect parse write (connect parse write t) ≡ connect parse write t
unfolding connect update
connect_idem parse write t = ground arith

-- Where badges are supported, the badge is that of the last count, whatever was there before.
pub run_badge_last :
    (counts : List (Option ℕ)) (count badge : Option ℕ)
    → run_badge true (counts ++ count ∷ []) badge ≡ count_value_changed true count none
unfolding run_badge count_value_changed update_badge
run_badge_last [] count badge = ground arith
run_badge_last (c ∷ counts) count badge =
    run_badge_last counts count (count_value_changed true c badge)
