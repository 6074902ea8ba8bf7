-- ===== src/SignIn/Rows.antt =====
-- What no event takes from the row of a user: a property of rows that neither a verified address, nor a
-- second factor that is used, nor a ban takes away.
use moneygun.Base.{
  ℕ, ◌≡◌, refl, ◌∙◌, sym, Bool, true, false, [], ◌∷◌, Option, none, some, Text, arith, Bool-cases,
  inl, inr,
}
use moneygun.MagicLinks.{consume}
use moneygun.Sessions.{Session}
use moneygun.TwoFactor.{Factor, verify_otp}
use moneygun.SignIn.{
  User, World, find_by_email, verified, establish, sign_in_or_verify, visit, unless_resumed,
  unauthenticated, sign_out, signed_out, ban, unban,
}
use moneygun.SignIn.Steps.{
  Event, requests_code, submits_code, submits_otp, visits, signs_out, bans, unbans, code_attempt,
  code_from, pass_code, user_of, after_otp, otp_from, user_pending, pending_user, request_code,
  submit_code, submit_otp, code_for, sign_up_with, mail_link, pending_for, new_user, step,
}
use moneygun.SignIn.Users.{holds_in, holds-update, holds-append, found_holds}

signed_out-users : (o : Option Session) (w : World) → (signed_out o w).users ≡ w.users
unfolding signed_out
signed_out-users none w = refl
signed_out-users (some s) w = refl

pub sign_out-users : (now : ℕ) (w : World) → (sign_out now w).users ≡ w.users
unfolding sign_out visit
sign_out-users now w = signed_out-users _ (visit now w)

module _ (enforced acceptable : Text → Bool) (fits : ℕ → Option Text → Text → Bool)
    (p : User → Bool)
    (email_kept : (v : User) → p v ≡ true → p (record v { email_verified = true }) ≡ true)
    (factor_kept : (now : ℕ) (typed : Text) (x v : User)
      → p x ≡ true
      → p v ≡ true
      → p (record v { factor = (verify_otp (fits now) typed x.factor).0 }) ≡ true)
    (ban_kept : (v : User) → p v ≡ true → p (record v { banned = true }) ≡ true) where
  pass_code-holds :
      (now : ℕ) (token : Text) (o : Option User) (u : ℕ) (w : World)
      → holds_in p u w.users ≡ true
      → holds_in p u (pass_code enforced acceptable fits now token o w).users ≡ true
  unfolding pass_code sign_in_or_verify establish
  pass_code-holds now token none u w h = h
  pass_code-holds now token (some x) u w h = ground (
    arith,
    holds-update p u x.id (λ v. record v { email_verified = true }) w.users (λ v. refl)
        (λ v a b. email_kept v) h,
  )

  code_from-holds :
      (now : ℕ) (token typed : Text) (o : Option Text) (u : ℕ) (w : World)
      → holds_in p u w.users ≡ true
      → holds_in p u (code_from enforced acceptable fits now token typed o w).users ≡ true
  unfolding code_from
  code_from-holds now token typed none u w h = h
  code_from-holds now token typed (some a) u w h =
      let found = consume (code_attempt enforced acceptable fits now a typed w) w.links in
      pass_code-holds now token (user_of enforced acceptable fits found.1 w.users) u
        (record w { links = found.0 }) h

  after_otp-users :
      (now : ℕ) (token : Text) (i u : ℕ) (r : Factor × Bool) (w : World)
      → ((v : User) → v.id ≡ u → v.id ≡ i → p v ≡ true → p (record v { factor = r.0 }) ≡ true)
      → holds_in p u w.users ≡ true
      → holds_in p u (after_otp enforced acceptable fits now token i r w).users ≡ true
  unfolding after_otp establish
  after_otp-users now token i u (f, false) w k h =
      holds-update p u i (λ v. record v { factor = f }) w.users (λ v. refl) k h
  after_otp-users now token i u (f, true) w k h =
      holds-update p u i (λ v. record v { factor = f }) w.users (λ v. refl) k h

  otp_from-holds :
      (now : ℕ) (token typed : Text) (o : Option User) (u : ℕ) (w : World)
      → ((x : User) → o ≡ some x → x.id ≡ u → p x ≡ true)
      → holds_in p u w.users ≡ true
      → holds_in p u (otp_from enforced acceptable fits now token typed o w).users ≡ true
  unfolding otp_from
  otp_from-holds now token typed none u w q h = h
  otp_from-holds now token typed (some x) u w q h =
      after_otp-users now token x.id u (verify_otp (fits now) typed x.factor) w
        (λ v a b. factor_kept now typed x v (q x refl (sym b ∙ a))) h

  pending-holds :
      (o : Option ℕ) (u : ℕ) (w : World) (x : User)
      → holds_in p u w.users ≡ true
      → pending_user enforced acceptable fits o w.users ≡ some x
      → x.id ≡ u
      → p x ≡ true
  unfolding pending_user
  pending-holds none u w x h f e = cc
  pending-holds (some i) u w x h f e = found_holds p u i w.users x f e h

  unless-holds :
      (o : Option Session) (k : World → World) (u : ℕ) (w : World)
      → holds_in p u w.users ≡ true
      → holds_in p u (k w).users ≡ true
      → holds_in p u (unless_resumed o k w).users ≡ true
  unfolding unless_resumed
  unless-holds none k u w v h = h
  unless-holds (some s) k u w v h = v

  code_for-holds :
      (now i : ℕ) (a code : Text) (o : Option User) (u : ℕ) (w : World)
      → holds_in p u w.users ≡ true
      → holds_in p u (code_for enforced acceptable fits now i a code o w).users ≡ true
  unfolding code_for sign_up_with mail_link pending_for
  code_for-holds now i a code none u w h =
      ground (arith, holds-append p u w.users (new_user i a ∷ []) h)
  code_for-holds now i a code (some x) u w h = ground arith

  request-holds :
      (now i : ℕ) (a code : Text) (u : ℕ) (w : World)
      → holds_in p u w.users ≡ true
      → holds_in p u (request_code enforced acceptable fits now i a code w).users ≡ true
  unfolding request_code
  request-holds now i a code u w h = elim (Bool-cases (enforced a)) [
    | inl e ↦ rw e h
    | inr e ↦ rw e (code_for-holds now i a code (find_by_email a w.users) u w h)
  ]

  -- The end of a ban is the event of which `p` must say more.
  abbrev pub Spares : ℕ → Event → Type 0
  Spares u (unbans i) =
      (v : User) → v.id ≡ u → v.id ≡ i → p v ≡ true → p (record v { banned = false }) ≡ true
  Spares u _ = Unit

  pub step-holds :
      (e : Event) (u : ℕ) (w : World)
      → Spares u e
      → holds_in p u w.users ≡ true
      → holds_in p u (step enforced acceptable fits e w).users ≡ true
  unfolding step unauthenticated visit submit_code submit_otp user_pending ban unban
  step-holds (requests_code now i a code) u w l h =
      unless-holds _ (request_code enforced acceptable fits now i a code) u (visit now w) h
        (request-holds now i a code u (visit now w) h)
  step-holds (submits_code now token typed) u w l h =
      unless-holds _ (submit_code enforced acceptable fits now token typed) u (visit now w) h
        (code_from-holds now token typed _ u (visit now w) h)
  step-holds (submits_otp now token typed) u w l h =
      unless-holds _ (submit_otp enforced acceptable fits now token typed) u (visit now w) h (
        otp_from-holds now token typed _ u (visit now w)
          (λ x. pending-holds (verified now w.pending_two_factor) u w x h) h)
  step-holds (visits now) u w l h = h
  step-holds (signs_out now) u w l h = rw (sign_out-users now w) h
  step-holds (bans i) u w l h =
      holds-update p u i (λ v. record v { banned = true }) w.users (λ v. refl) (λ v a b. ban_kept v)
        h
  step-holds (unbans i) u w l h =
      holds-update p u i (λ v. record v { banned = false }) w.users (λ v. refl) l h
