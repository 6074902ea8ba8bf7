-- ===== src/MagicLinks/Codes.antt =====
-- The codes: how they are made, and how they are typed back.
use moneygun.Base.{
  ℕ, zero, suc, ◌+◌, ◌*◌, ◌<◌, ◌≤◌, ◌≡◌, refl, Bool, true, false, List, [], ◌∷◌, none, some, Text,
  text_eq_refl, keep_if, All, length, arith, Bool-cases, sym, ap, ◌∙◌, inl, inr,
}
use moneygun.MagicLinks.{
  Purpose, Link, Attempt, is_digit, blank, is_space, generate, generate_code, code_exists, matches,
  is_code, in_purposes, has_new_email, one_of, find_link, consume, consume_found, send_magic_link,
}

-- A text of six digits.
abbrev pub IsCode : Text → Type 0
IsCode c = (length c ≡ 6) × All (λ d. is_digit d ≡ true) c

at_start : (n : ℕ) → n + 6 * 0 ≡ n
at_start n = omega arith

next_round : (n i : ℕ) → n + 6 + 6 * i ≡ n + 6 * suc i
next_round n i = omega arith

module _ (random : ℕ → ℕ) where
  -- The source of random numbers gives numbers below 10.
  abbrev pub IsDecimal : Type 0
  IsDecimal = (n : ℕ) → random n < 10

  generate-IsCode :
      (n k : ℕ)
      → IsDecimal
      → (length (generate random n k) ≡ k) × All (λ d. is_digit d ≡ true) (generate random n k)
  unfolding generate
  generate-IsCode n zero r = (refl, tt)
  generate-IsCode n (suc k) r = ground (arith, generate-IsCode (suc n) k r, r n)

  -- Where the source gives numbers below 10, a code that the loop gives is one of six digits that no
  -- link has.
  pub generate_code-fresh :
      (fuel n : ℕ) (ls : List Link) (c : Text)
      → IsDecimal
      → generate_code fuel random n ls ≡ some c
      → IsCode c × (code_exists c ls ≡ false)
  unfolding generate_code
  generate_code-fresh zero n ls c r h = cc
  generate_code-fresh (suc fuel) n ls c r h =
      elim (Bool-cases (code_exists (generate random n 6) ls)) [
        | inl e ↦ generate_code-fresh fuel (n + 6) ls c r (ground arith)
        | inr e ↦ ground (arith, generate-IsCode n 6 r)
      ]

  -- Where the fuel reaches a round that draws a code that no link has, the loop ends with a code.
  pub generate_code_ends :
      (fuel n i : ℕ) (ls : List Link)
      → i < fuel
      → code_exists (generate random (n + 6 * i) 6) ls ≡ false
      → (c : Text) × (generate_code fuel random n ls ≡ some c)
  unfolding generate_code
  generate_code_ends zero n i ls l h = elim l [ ]
  generate_code_ends (suc fuel) n zero ls l h = (
    generate random n 6,
    rw (sym (ap (λ k. code_exists (generate random k 6) ls) (at_start n)) ∙ h) refl,
  )
  generate_code_ends (suc fuel) n (suc i) ls l h =
      elim (Bool-cases (code_exists (generate random n 6) ls)) [
        | inl e ↦ rw e (
            generate_code_ends fuel (n + 6) i ls (omega (arith, l))
              (ap (λ k. code_exists (generate random k 6) ls) (next_round n i) ∙ h))
        | inr e ↦ (generate random n 6, rw e refl)
      ]

blank-digits : (s : Text) → blank s ≡ true → keep_if is_digit s ≡ []
unfolding blank is_space
blank-digits [] h = refl
blank-digits (c ∷ cs) h = ground (arith, blank-digits cs)

pub not_blank : (s c : Text) → keep_if is_digit s ≡ c → length c ≡ 6 → blank s ≡ false
not_blank s c h n = elim (Bool-cases (blank s)) [
  | inl e ↦ absurd (ground (arith, blank-digits s e))
  | inr e ↦ e
]

pub head_granted :
    (a : Attempt) (l : Link) (ls : List Link) → matches a l ≡ true → (consume a (l ∷ ls)).1 ≡ some l
unfolding consume consume_found find_link
head_granted a l ls h = ground arith

-- A link can be used until it expires: right after a code of six digits was sent, without a new
-- address, an attempt through a scope with the user, no later than 15 minutes after, for purposes with
-- that of the link, is granted the link, however the digits are spaced in what was typed.
pub sent_accepted :
    (now u later : ℕ) (p : Purpose) (code typed : Text) (owns : ℕ → Bool) (ps : List Purpose)
    (ls : List Link)
    → IsCode code
    → keep_if is_digit typed ≡ code
    → later ≤ now + 900
    → owns u ≡ true
    → one_of p ps ≡ true
    → (consume
        (record { now = later; owns = owns; code = typed; purposes = some ps; new_email = none })
        (send_magic_link now u p none code ls)).1
      ≡ some (record {
        user_id = u;
        purpose = p;
        code = code;
        new_email = none;
        expires_at = now + 900;
      })
unfolding send_magic_link matches is_code in_purposes has_new_email
sent_accepted now u later p code typed owns ps ls c h l o q =
    head_granted _ _ _ (ground (arith, not_blank typed code h c.0, text_eq_refl code))
