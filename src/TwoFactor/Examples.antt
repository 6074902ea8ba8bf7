-- ===== src/TwoFactor/Examples.antt =====
-- A factor with a backup code that stands on its list twice, and one password that fits.
use moneygun.Base.{
  ◌≡◌, refl, Bool, true, false, [], ◌∷◌, Option, none, some, Text, codes, text_eq, ◌+◌, ◌≤◌,
}
use moneygun.TwoFactor.{Factor, verify_otp, normalize, is_totp}
use moneygun.TwoFactor.Backup.{count, granted, after_attempts, backup_bound}

abbrev fits : Option Text → Text → Bool
fits none code = false
fits (some secret) code = text_eq code (codes "492039")

abbrev factor : Factor
factor = record {
  otp_secret = some (codes "base32");
  otp_enabled_at = some 10;
  otp_backup_codes = codes "0123abcd" ∷ codes "ffff0000" ∷ codes "0123abcd" ∷ [];
}

backup_granted :
    verify_otp fits (codes " FFFF0000 ") factor
    ≡ (record factor { otp_backup_codes = codes "0123abcd" ∷ codes "0123abcd" ∷ [] }, true)
unfolding verify_otp text_eq
backup_granted = refl

short_refused : verify_otp fits (codes "49203") factor ≡ (factor, false)
unfolding verify_otp
short_refused = refl

totp_pattern : is_totp (normalize (codes "492039 ")) ≡ true
unfolding is_totp normalize
totp_pattern = refl

totp_granted : (verify_otp fits (codes "492039 ") factor).1 ≡ true
unfolding verify_otp text_eq
totp_granted = refl

backup_bound_example :
    (granted fits (codes "0123abcd") (codes "0123ABCD" ∷ codes "492039" ∷ []) factor
        + count
            (codes "0123abcd")
            (after_attempts fits (codes "0123ABCD" ∷ codes "492039" ∷ []) factor).otp_backup_codes
      ≡ count (codes "0123abcd") factor.otp_backup_codes)
    × (granted fits (codes "0123abcd") (codes "0123ABCD" ∷ codes "492039" ∷ []) factor
        ≤ count (codes "0123abcd") factor.otp_backup_codes)
backup_bound_example =
    backup_bound fits (codes "0123abcd") (codes "0123ABCD" ∷ codes "492039" ∷ []) factor
