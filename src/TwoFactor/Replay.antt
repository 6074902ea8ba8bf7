-- ===== src/TwoFactor/Replay.antt =====
-- What a code that was granted says, and whether it is granted again.
use moneygun.Base.{◌≡◌, refl, Bool, true, false, Option, Text, arith}
use moneygun.TwoFactor.{
  Factor, normalize, is_totp, verify_normal, verify_otp, has_secret, disable_two_factor,
}

module _ (fits : Option Text → Text → Bool) where
  totp_keeps :
      (code : Text) (f : Factor) → is_totp (normalize code) ≡ true → (verify_otp fits code f).0 ≡ f
  unfolding verify_otp verify_normal
  totp_keeps code f h = ground arith

  -- A code of the form of a one-time password that is granted is granted a second time right away.
  pub totp_replayed :
      (code : Text) (f : Factor)
      → is_totp (normalize code) ≡ true
      → (verify_otp fits code f).1 ≡ true
      → (verify_otp fits code (verify_otp fits code f).0).1 ≡ true
  totp_replayed code f h g = rw (totp_keeps code f h) g

  -- Without a second factor that is enabled, no code is granted.
  pub disabled_refuses :
      (code : Text) (f : Factor) → (verify_otp fits code (disable_two_factor f)).1 ≡ false
  unfolding verify_otp disable_two_factor has_secret
  disabled_refuses code f = refl
