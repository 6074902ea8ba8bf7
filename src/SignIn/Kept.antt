-- ===== src/SignIn/Kept.antt =====
-- What keeps a banned user out: the row of the user and the pending second factor after any event.
use moneygun.Base.{
  ℕ, ◌≡◌, refl, ◌≢◌, ◌∙◌, sym, Bool, true, false, ◌==◌, List, Option, none, some, Text, arith,
  Bool-cases, inl, inr,
}
use moneygun.MagicLinks.{Link, consume}
use moneygun.Sessions.{Session}
use moneygun.Sessions.Owners.{has_session}
use moneygun.TwoFactor.{Factor, verify_otp}
use moneygun.SignIn.{
  Token, User, World, find_by_email, verified, establish, sign_in_or_verify, visit, unless_resumed,
  unauthenticated, sign_out, signed_out, ban, unban,
}
use moneygun.SignIn.Steps.{
  Event, requests_code, submits_code, submits_otp, visits, signs_out, bans, unbans,
  can_authenticate_with_magic_link, code_attempt, code_from, pass_code, user_of, after_otp,
  otp_from, pending_user, request_code, submit_code, submit_otp, code_for, sign_up_with, mail_link,
  pending_for, step,
}
use moneygun.SignIn.Gains.{find_user-id}
use moneygun.SignIn.Users.{is_banned, banned_in, found_holds}
use moneygun.SignIn.Rows.{Spares, step-holds}

abbrev pub pends : ℕ → Option (Token ℕ) → Bool
pends u none = false
pends u (some t) = t.value == u

-- A banned user without a session and without a pending second factor.
pub record IsOut (u : ℕ) (w : World) : Type 0 where
  pub banned : banned_in u w.users ≡ true
  pub no_session : has_session u w.sessions ≡ false
  pub not_pending : pends u w.pending_two_factor ≡ false

-- No event but the end of a ban.
abbrev pub Leaves : ℕ → Event → Type 0
Leaves u (unbans i) = i ≢ u
Leaves u _ = Unit

module _ (enforced acceptable : Text → Bool) (fits : ℕ → Option Text → Text → Bool) where
  pub banned_refused :
      (x : User)
      → x.banned ≡ true
      → can_authenticate_with_magic_link enforced acceptable fits x ≡ false
  unfolding can_authenticate_with_magic_link
  banned_refused x h = ground arith

  pass_code-pends :
      (now : ℕ) (token : Text) (o : Option User) (u : ℕ) (w : World)
      → ((x : User) → o ≡ some x → x.id ≡ u → x.banned ≡ true)
      → pends u w.pending_two_factor ≡ false
      → pends u (pass_code enforced acceptable fits now token o w).pending_two_factor ≡ false
  unfolding pass_code sign_in_or_verify establish
  pass_code-pends now token none u w q h = h
  pass_code-pends now token (some x) u w q h = ground (arith, q x refl, banned_refused x)

  user_of-banned :
      (o : Option Link) (us : List User) (u : ℕ) (x : User)
      → banned_in u us ≡ true
      → user_of enforced acceptable fits o us ≡ some x
      → x.id ≡ u
      → x.banned ≡ true
  unfolding user_of
  user_of-banned none us u x h f e = cc
  user_of-banned (some l) us u x h f e = found_holds is_banned u l.user_id us x f e h

  code_from-pends :
      (now : ℕ) (token typed : Text) (o : Option Text) (u : ℕ) (w : World)
      → banned_in u w.users ≡ true
      → pends u w.pending_two_factor ≡ false
      → pends u (code_from enforced acceptable fits now token typed o w).pending_two_factor ≡ false
  unfolding code_from
  code_from-pends now token typed none u w b h = h
  code_from-pends now token typed (some a) u w b h =
      let found = consume (code_attempt enforced acceptable fits now a typed w) w.links in
      pass_code-pends now token (user_of enforced acceptable fits found.1 w.users) u
        (record w { links = found.0 }) (λ x. user_of-banned found.1 w.users u x b) h

  after_otp-pends :
      (now : ℕ) (token : Text) (i u : ℕ) (p : Factor × Bool) (w : World)
      → pends u w.pending_two_factor ≡ false
      → pends u (after_otp enforced acceptable fits now token i p w).pending_two_factor ≡ false
  unfolding after_otp establish
  after_otp-pends now token i u (f, false) w h = h
  after_otp-pends now token i u (f, true) w h = refl

  otp_from-pends :
      (now : ℕ) (token typed : Text) (o : Option User) (u : ℕ) (w : World)
      → pends u w.pending_two_factor ≡ false
      → pends u (otp_from enforced acceptable fits now token typed o w).pending_two_factor ≡ false
  unfolding otp_from
  otp_from-pends now token typed none u w h = h
  otp_from-pends now token typed (some x) u w h =
      after_otp-pends now token x.id u (verify_otp (fits now) typed x.factor) w h

  code_for-pends :
      (now i : ℕ) (a code : Text) (o : Option User) (u : ℕ) (w : World)
      → pends u w.pending_two_factor ≡ false
      → pends u (code_for enforced acceptable fits now i a code o w).pending_two_factor ≡ false
  unfolding code_for sign_up_with mail_link pending_for
  code_for-pends now i a code none u w h = ground arith
  code_for-pends now i a code (some x) u w h = ground arith

  request-pends :
      (now i : ℕ) (a code : Text) (u : ℕ) (w : World)
      → pends u w.pending_two_factor ≡ false
      → pends u (request_code enforced acceptable fits now i a code w).pending_two_factor ≡ false
  unfolding request_code
  request-pends now i a code u w h = elim (Bool-cases (enforced a)) [
    | inl e ↦ rw e h
    | inr e ↦ rw e (code_for-pends now i a code (find_by_email a w.users) u w h)
  ]

  unless-pends :
      (o : Option Session) (k : World → World) (u : ℕ) (w : World)
      → pends u w.pending_two_factor ≡ false
      → pends u (k w).pending_two_factor ≡ false
      → pends u (unless_resumed o k w).pending_two_factor ≡ false
  unfolding unless_resumed
  unless-pends none k u w v h = h
  unless-pends (some s) k u w v h = v

  signed_out-pending :
      (o : Option Session) (w : World) → (signed_out o w).pending_two_factor ≡ w.pending_two_factor
  unfolding signed_out
  signed_out-pending none w = refl
  signed_out-pending (some s) w = refl

  pub step-pends :
      (e : Event) (u : ℕ) (w : World)
      → IsOut u w
      → pends u (step enforced acceptable fits e w).pending_two_factor ≡ false
  unfolding step unauthenticated visit submit_code submit_otp sign_out ban unban
  step-pends (requests_code now i a code) u w v =
      unless-pends _ (request_code enforced acceptable fits now i a code) u (visit now w)
        v.not_pending (request-pends now i a code u (visit now w) v.not_pending)
  step-pends (submits_code now token typed) u w v =
      unless-pends _ (submit_code enforced acceptable fits now token typed) u (visit now w)
        v.not_pending (code_from-pends now token typed _ u (visit now w) v.banned v.not_pending)
  step-pends (submits_otp now token typed) u w v =
      unless-pends _ (submit_otp enforced acceptable fits now token typed) u (visit now w)
        v.not_pending (otp_from-pends now token typed _ u (visit now w) v.not_pending)
  step-pends (visits now) u w v = v.not_pending
  step-pends (signs_out now) u w v = rw (signed_out-pending _ (visit now w)) v.not_pending
  step-pends (bans i) u w v = v.not_pending
  step-pends (unbans i) u w v = v.not_pending

  spared :
      (e : Event) (u : ℕ)
      → Leaves u e
      → Spares enforced acceptable fits is_banned
          (λ v h. h)
          (λ now typed x v g h. h)
          (λ v h. refl)
          u
          e
  spared (unbans i) u l = λ v a b h. absurd (l (sym b ∙ a))
  spared _ u l = _

  pub step-banned :
      (e : Event) (u : ℕ) (w : World)
      → Leaves u e
      → banned_in u w.users ≡ true
      → banned_in u (step enforced acceptable fits e w).users ≡ true
  step-banned e u w l h =
      step-holds enforced acceptable fits is_banned (λ v h. h) (λ now typed x v g h. h)
        (λ v h. refl) e u w (spared e u l) h

  pub pending-pends :
      (now u : ℕ) (o : Option (Token ℕ)) (us : List User) (x : User)
      → pending_user enforced acceptable fits (verified now o) us ≡ some x
      → x.id ≡ u
      → pends u o ≡ true
  unfolding verified pending_user
  pending-pends now u none us x q i = cc
  pending-pends now u (some t) us x q i = ground (arith, find_user-id t.value us x)
