-- ===== src/TwoFactor.antt =====
-- app/models/concerns/user/two_factor.rb: the second factor of a user, one-time passwords and backup
-- codes. Whether a password fits a secret at the present time is said by the package rotp: a
-- parameter. The random backup codes are an argument.
pub mod Backup
pub mod Replay
mod Examples
use moneygun.Base.{
  ℕ, suc, ◌+◌, ◌-◌, ◌≡◌, Bool, true, false, not, ◌&&◌, ◌||◌, ◌==◌, List, [], ◌∷◌, Option, none,
  some, Text, text_eq, leb, length, if◌then◌else◌,
}

pub record Factor : Type 0 where
  pub otp_secret : Option Text
  pub otp_enabled_at : Option ℕ
  pub otp_backup_codes : List Text

-- White space that Ruby's `strip` takes away at both ends.
strips : ℕ → Bool
strips c = (leb 9 c && leb c 13) || (c == 32) || (c == 0)

strip_start : Text → Text
unfolding strips
strip_start [] = []
strip_start (c ∷ cs) = let rest = strip_start cs in if strips c then rest else c ∷ cs

end_cons : ℕ → Text → Text
unfolding strips
end_cons c [] = if strips c then [] else c ∷ []
end_cons c (d ∷ ds) = c ∷ d ∷ ds

strip_end : Text → Text
unfolding end_cons
strip_end [] = []
strip_end (c ∷ cs) = end_cons c (strip_end cs)

-- `downcase`, where it can lead to a digit or to a letter up to f.
downcase : Text → Text
downcase [] = []
downcase (c ∷ cs) = (if leb 65 c && leb c 90 then c + 32 else c) ∷ downcase cs

-- `code.to_s.strip.downcase`.
pub normalize : Text → Text
unfolding strip_start strip_end downcase
normalize s = downcase (strip_end (strip_start s))

abbrev pub is_digit : ℕ → Bool
is_digit c = leb 48 c && leb c 57

abbrev pub is_hex : ℕ → Bool
is_hex c = is_digit c || (leb 97 c && leb c 102)

abbrev pub every : (ℕ → Bool) → Text → Bool
every p [] = true
every p (c ∷ cs) = p c && every p cs

-- The two patterns of `verify_otp`.
pub is_totp : Text → Bool
is_totp s = (length s == 6) && every is_digit s

pub is_backup : Text → Bool
is_backup s = (length s == 8) && every is_hex s

kept : Text → Option (List Text) → Option (List Text)
kept d none = none
kept d (some ds) = some (d ∷ ds)

-- `codes.index`, with `delete_at` of what it finds.
pub delete_code : Text → List Text → Option (List Text)
unfolding kept
delete_code code [] = none
delete_code code (c ∷ cs) =
    let rest = delete_code code cs in if text_eq c code then some cs else kept c rest

consume_found : Factor → Option (List Text) → Factor × Bool
consume_found f none = (f, false)
consume_found f (some rest) = (record f { otp_backup_codes = rest }, true)

pub consume_backup_code : Text → Factor → Factor × Bool
unfolding delete_code consume_found
consume_backup_code code f = consume_found f (delete_code code f.otp_backup_codes)

is_set : Option ℕ → Bool
is_set none = false
is_set (some t) = true

unfoldable pub two_factor_enabled : Factor → Bool
unfolding is_set
two_factor_enabled f = is_set f.otp_enabled_at

-- `otp_secret?`: present and not blank.
has_secret : Option Text → Bool
has_secret none = false
has_secret (some []) = false
has_secret (some (c ∷ cs)) = true

module _ (fits : Option Text → Text → Bool) where
  verify_normal : Text → Factor → Factor × Bool
  unfolding consume_backup_code is_totp is_backup
  verify_normal code f =
      if is_totp code
      then (f, fits f.otp_secret code)
      else if is_backup code
      then consume_backup_code code f
      else (f, false)

  unfoldable pub verify_otp : Text → Factor → Factor × Bool
  unfolding verify_normal two_factor_enabled has_secret normalize
  verify_otp code f =
      if has_secret f.otp_secret && two_factor_enabled f
      then verify_normal (normalize code) f
      else (f, false)

unfoldable pub enable_two_factor : ℕ → Text → List Text → Factor → Factor
enable_two_factor now secret codes f = record {
  otp_secret = some secret;
  otp_enabled_at = some now;
  otp_backup_codes = codes;
}

unfoldable pub disable_two_factor : Factor → Factor
disable_two_factor f = record { otp_secret = none; otp_enabled_at = none; otp_backup_codes = [] }
