-- ===== src/TwoFactor/Backup.antt =====
-- What backup codes are worth.
use moneygun.Base.{
  ℕ, ◌+◌, ◌≤◌, ◌≡◌, refl, Bool, true, false, ◌&&◌, List, [], ◌∷◌, Option, none, some, Text, text_eq,
  text_eq_iff, if◌then◌else◌, arith, Bool-cases, Option-cases, ◌⊎◌, inl, inr,
}
use mathlib.Core.Path.{subst}
use mathlib.Core.List.{Mem, mem-cons_self, mem-cons_of_mem}
use moneygun.TwoFactor.{
  Factor, kept, normalize, is_totp, is_backup, delete_code, consume_found, consume_backup_code,
  verify_normal, two_factor_enabled, has_secret, verify_otp,
}

abbrev pub count : Text → List Text → ℕ
count a [] = 0
count a (c ∷ cs) = (if text_eq c a then 1 else 0) + count a cs

abbrev pub one_if : Bool → ℕ
one_if true = 1
one_if false = 0

kept-count :
    (a c : Text) (n : ℕ) (cs ds : List Text) (o : Option (List Text))
    → ((es : List Text) → o ≡ some es → n + count a es ≡ count a cs)
    → kept c o ≡ some ds
    → n + count a ds ≡ count a (c ∷ cs)
unfolding kept
kept-count a c n cs ds none q h = cc
kept-count a c n cs ds (some es) q h = ground (arith, q es refl)

-- What `delete_code` leaves of a code, and of any other.
delete-count :
    (a code : Text) (cs ds : List Text)
    → delete_code code cs ≡ some ds
    → one_if (text_eq code a) + count a ds ≡ count a cs
unfolding delete_code
delete-count a code [] ds h = cc
delete-count a code (c ∷ cs) ds h = elim (Bool-cases (text_eq c code)) [
  | inl e ↦ ground (arith, (text_eq_iff c code).0 e)
  | inr e ↦
      kept-count a c (one_if (text_eq code a)) cs ds (delete_code code cs)
        (λ es. delete-count a code cs es) (ground arith)
]

found-count :
    (a code : Text) (f : Factor) (o : Option (List Text))
    → delete_code code f.otp_backup_codes ≡ o
    → one_if ((consume_found f o).1 && text_eq code a)
        + count a (consume_found f o).0.otp_backup_codes
      ≡ count a f.otp_backup_codes
unfolding consume_found
found-count a code f none e = omega arith
found-count a code f (some ds) e = delete-count a code f.otp_backup_codes ds e

module _ (fits : Option Text → Text → Bool) where
  -- Whether an attempt is granted for the backup code `a`.
  abbrev pub spends : Text → Text → Factor → Bool
  spends a code f =
      (verify_otp fits code f).1 && (is_backup (normalize code) && text_eq (normalize code) a)

  not_both : (s : Text) → is_totp s ≡ true → is_backup s ≡ false
  unfolding is_totp is_backup
  not_both s h = ground arith

  verify-count :
      (a code : Text) (f : Factor)
      → one_if (spends a code f) + count a (verify_otp fits code f).0.otp_backup_codes
        ≡ count a f.otp_backup_codes
  unfolding verify_otp verify_normal consume_backup_code
  verify-count a code f = ground (
    arith,
    found-count a (normalize code) f (delete_code (normalize code) f.otp_backup_codes) refl,
    not_both (normalize code),
  )

  -- The factor after attempts with some codes, and how many of them were granted for the code `a`.
  pub after_attempts : List Text → Factor → Factor
  after_attempts [] f = f
  after_attempts (code ∷ later) f = after_attempts later (verify_otp fits code f).0

  pub granted : Text → List Text → Factor → ℕ
  granted a [] f = 0
  granted a (code ∷ later) f = one_if (spends a code f) + granted a later (verify_otp fits code f).0

  -- Whatever codes are tried, each backup code is granted as often as it goes from the list, so that
  -- nobody gets in with it more often than it was on it.
  pub backup_bound :
      (a : Text) (tries : List Text) (f : Factor)
      → (granted a tries f + count a (after_attempts tries f).otp_backup_codes
          ≡ count a f.otp_backup_codes)
        × (granted a tries f ≤ count a f.otp_backup_codes)
  unfolding granted after_attempts
  backup_bound a [] f = (omega arith, omega arith)
  backup_bound a (code ∷ later) f =
      ground (arith, verify-count a code f, backup_bound a later (verify_otp fits code f).0)

-- What a second factor is: the one-time password of the secret, or one of the backup codes.
abbrev pub IsFactor : (Option Text → Text → Bool) → Text → Factor → Type 0
IsFactor fits code f =
    (fits f.otp_secret (normalize code) ≡ true) ⊎ Mem (normalize code) f.otp_backup_codes

-- A backup code that is found is on the list.
deleted-Mem : (c : Text) (ds rest : List Text) → delete_code c ds ≡ some rest → Mem c ds
unfolding delete_code kept
deleted-Mem c [] rest h = cc
deleted-Mem c (d ∷ ds) rest h = elim (Bool-cases (text_eq d c)) [
  | inl e ↦ subst (λ k. Mem k (d ∷ ds)) ((text_eq_iff d c).0 e) mem-cons_self
  | inr e ↦ elim (Option-cases (delete_code c ds)) [
    | inl o ↦ cc (e, o, h)
    | inr (xs, o) ↦ mem-cons_of_mem d (deleted-Mem c ds xs o)
  ]
]

consumed-Mem :
    (c : Text) (f : Factor) (o : Option (List Text))
    → delete_code c f.otp_backup_codes ≡ o
    → (consume_found f o).1 ≡ true
    → Mem c f.otp_backup_codes
unfolding consume_found
consumed-Mem c f none e h = cc
consumed-Mem c f (some rest) e h = deleted-Mem c f.otp_backup_codes rest e

normal-IsFactor :
    (fits : Option Text → Text → Bool) (code : Text) (f : Factor)
    → (verify_normal fits code f).1 ≡ true
    → (fits f.otp_secret code ≡ true) ⊎ Mem code f.otp_backup_codes
unfolding verify_normal consume_backup_code
normal-IsFactor fits code f h = elim (Bool-cases (is_totp code)) [
  | inl t ↦ inl (rw t at h)
  | inr t ↦ elim (Bool-cases (is_backup code)) [
    | inl b ↦ inr (consumed-Mem code f _ refl (rw (t, b) at h))
    | inr b ↦ cc (t, b, h)
  ]
]

pub verify_otp-IsFactor :
    (fits : Option Text → Text → Bool) (code : Text) (f : Factor)
    → (verify_otp fits code f).1 ≡ true
    → (two_factor_enabled f ≡ true) × IsFactor fits code f
unfolding verify_otp
verify_otp-IsFactor fits code f h =
    elim (Bool-cases (has_secret f.otp_secret && two_factor_enabled f)) [
      | inl b ↦ (ground (arith, b), normal-IsFactor fits (normalize code) f (rw b at h))
      | inr b ↦ cc (b, h)
    ]
