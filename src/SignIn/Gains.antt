-- ===== src/SignIn/Gains.antt =====
-- Which operations of the controllers give a session, as the calls of the tables say it; SignIn.Safety takes the
-- calls apart.
use moneygun.Base.{
  ℕ, ◌≡◌, refl, Bool, true, false, List, [], ◌∷◌, Option, none, some, Text, arith, ap, ◌∙◌, ==_iff,
  Bool-cases, inl, inr,
}
use moneygun.MagicLinks.{Link, consume}
use moneygun.Sessions.{Session}
use moneygun.Sessions.Owners.{has_session, has-resume, has-create, has-destroy, has-delete}
use moneygun.TwoFactor.{Factor, two_factor_enabled, verify_otp}
use moneygun.SignIn.{
  User, World, find_user, find_by_email, can_authenticate, update_user, verified, establish,
  sign_in_or_verify, visit, unless_resumed, unauthenticated, sign_out, signed_out, destroy_of, ban,
  unban,
}
use moneygun.SignIn.Steps.{
  Event, requests_code, submits_code, submits_otp, visits, signs_out, bans, unbans,
  can_authenticate_with_magic_link, code_attempt, code_from, pass_code, user_of, after_otp,
  otp_from, user_pending, request_code, submit_code, submit_otp, code_for, sign_up_with, mail_link,
  pending_for, step,
}

pub find_user-id : (i : ℕ) (us : List User) (x : User) → find_user i us ≡ some x → x.id ≡ i
unfolding find_user
find_user-id i [] x h = cc
find_user-id i (u ∷ us) x h = ground (arith, find_user-id i us x)

-- A session that `establish` makes is of its user.
establish-has :
    (now : ℕ) (token : Text) (i u : ℕ) (w : World)
    → has_session u w.sessions ≡ false
    → has_session u (establish now token i w).sessions ≡ true
    → i ≡ u
unfolding establish
establish-has now token i u w h e = ground (arith, has-create u now i token w.sessions, ==_iff i u)

sign_in-has :
    (now : ℕ) (token : Text) (x : User) (u : ℕ) (w : World)
    → has_session u w.sessions ≡ false
    → has_session u (sign_in_or_verify now token x w).sessions ≡ true
    → (x.id ≡ u) × (two_factor_enabled x.factor ≡ false)
unfolding sign_in_or_verify
sign_in-has now token x u w h e = ground (arith, establish-has now token x.id u w h)

module _ (enforced acceptable : Text → Bool) (fits : ℕ → Option Text → Text → Bool) where
  -- The code is that of a live link of the pending address for a user who may sign in by mail and has
  -- no second factor.
  abbrev ByCode : ℕ → Text → ℕ → World → Type 0
  ByCode now typed u w =
      (e : Text) × (l : Link) × (x : User) × (verified now w.pending_authentication ≡ some e)
      × ((consume (code_attempt enforced acceptable fits now e typed w) w.links).1 ≡ some l)
      × (find_user l.user_id w.users ≡ some x)
      × (x.id ≡ u)
      × (can_authenticate_with_magic_link enforced acceptable fits x ≡ true)
      × (two_factor_enabled x.factor ≡ false)

  -- The code is a second factor of the user whose first factor is pending.
  abbrev ByOtp : ℕ → Text → ℕ → World → Type 0
  ByOtp now typed u w =
      (x : User) × (user_pending enforced acceptable fits now w ≡ some x)
      × (x.id ≡ u)
      × ((verify_otp (fits now) typed x.factor).1 ≡ true)

  abbrev pub Granted : Event → ℕ → World → Type 0
  Granted (submits_code now token typed) u w = ByCode now typed u w
  Granted (submits_otp now token typed) u w = ByOtp now typed u w
  Granted _ u w = ⊥

  pass_code-has :
      (now : ℕ) (token : Text) (o : Option User) (u : ℕ) (w : World)
      → has_session u w.sessions ≡ false
      → has_session u (pass_code enforced acceptable fits now token o w).sessions ≡ true
      → (x : User) × (o ≡ some x)
        × (x.id ≡ u)
        × (can_authenticate_with_magic_link enforced acceptable fits x ≡ true)
        × (two_factor_enabled x.factor ≡ false)
  unfolding pass_code
  pass_code-has now token none u w h e = cc
  pass_code-has now token (some x) u w h e =
      elim (Bool-cases (can_authenticate_with_magic_link enforced acceptable fits x)) [
        | inl c ↦ let p = sign_in-has now token x u _ h (rw c at e) in (x, refl, p.0, c, p.1)
        | inr c ↦ absurd (ground (arith, h, rw c at e))
      ]

  user_of-some :
      (o : Option Link) (us : List User) (x : User)
      → user_of enforced acceptable fits o us ≡ some x
      → (l : Link) × (o ≡ some l) × (find_user l.user_id us ≡ some x)
  unfolding user_of
  user_of-some none us x h = cc
  user_of-some (some l) us x h = (l, refl, h)

  code_from-has :
      (now : ℕ) (token typed : Text) (o : Option Text) (u : ℕ) (w : World)
      → verified now w.pending_authentication ≡ o
      → has_session u w.sessions ≡ false
      → has_session u (code_from enforced acceptable fits now token typed o w).sessions ≡ true
      → ByCode now typed u w
  unfolding code_from
  code_from-has now token typed none u w q h e = cc
  code_from-has now token typed (some a) u w q h e =
      let found = consume (code_attempt enforced acceptable fits now a typed w) w.links in
      let p =
        pass_code-has now token (user_of enforced acceptable fits found.1 w.users) u
          (record w { links = found.0 }) h e in
      let q' = user_of-some found.1 w.users p.0 p.1 in (a, q'.0, p.0, q, q'.1, q'.2, p.2, p.3, p.4)

  after_otp-has :
      (now : ℕ) (token : Text) (i u : ℕ) (p : Factor × Bool) (w : World)
      → has_session u w.sessions ≡ false
      → has_session u (after_otp enforced acceptable fits now token i p w).sessions ≡ true
      → (i ≡ u) × (p.1 ≡ true)
  unfolding after_otp
  after_otp-has now token i u (f, false) w h e = cc
  after_otp-has now token i u (f, true) w h e = (
    establish-has now token i u
        (record w { users = update_user i (λ v. record v { factor = f }) w.users }) h e,
    refl,
  )

  otp_from-has :
      (now : ℕ) (token typed : Text) (o : Option User) (u : ℕ) (w : World)
      → user_pending enforced acceptable fits now w ≡ o
      → has_session u w.sessions ≡ false
      → has_session u (otp_from enforced acceptable fits now token typed o w).sessions ≡ true
      → ByOtp now typed u w
  unfolding otp_from
  otp_from-has now token typed none u w q h e = cc
  otp_from-has now token typed (some x) u w q h e =
      let p = after_otp-has now token x.id u (verify_otp (fits now) typed x.factor) w h e in
      (x, q, p.0, p.1)

  unless-has :
      (o : Option Session) (k : World → World) (u : ℕ) (w : World)
      → has_session u w.sessions ≡ false
      → has_session u (unless_resumed o k w).sessions ≡ true
      → has_session u (k w).sessions ≡ true
  unfolding unless_resumed
  unless-has none k u w h e = e
  unless-has (some s) k u w h e = cc

  pub visit-has :
      (now u : ℕ) (w : World)
      → has_session u w.sessions ≡ false
      → has_session u (visit now w).sessions ≡ false
  unfolding visit
  visit-has now u w h = has-resume u now w.session_token w.sessions h

  destroyed-has :
      (k : Option Text) (u : ℕ) (ss : List Session)
      → has_session u ss ≡ false
      → has_session u (destroy_of k ss) ≡ false
  unfolding destroy_of
  destroyed-has none u ss h = h
  destroyed-has (some k) u ss h = has-destroy u k ss h

  signed_out-has :
      (o : Option Session) (u : ℕ) (w : World)
      → has_session u w.sessions ≡ false
      → has_session u (signed_out o w).sessions ≡ false
  unfolding signed_out
  signed_out-has none u w h = h
  signed_out-has (some s) u w h = destroyed-has w.session_token u w.sessions h

  code_for-sessions :
      (now i : ℕ) (a code : Text) (o : Option User) (w : World)
      → (code_for enforced acceptable fits now i a code o w).sessions ≡ w.sessions
  unfolding code_for sign_up_with mail_link pending_for
  code_for-sessions now i a code none w = elim (Bool-cases (acceptable a)) [
    | inl e ↦ rw e refl
    | inr e ↦ rw e refl
  ]
  code_for-sessions now i a code (some x) w = elim (Bool-cases (can_authenticate x)) [
    | inl e ↦ rw e refl
    | inr e ↦ rw e refl
  ]

  request-sessions :
      (now i : ℕ) (a code : Text) (w : World)
      → (request_code enforced acceptable fits now i a code w).sessions ≡ w.sessions
  unfolding request_code
  request-sessions now i a code w = elim (Bool-cases (enforced a)) [
    | inl e ↦ rw e refl
    | inr e ↦ rw e (code_for-sessions now i a code (find_by_email a w.users) w)
  ]

  request-has :
      (now i : ℕ) (a code : Text) (u : ℕ) (w : World)
      → has_session u w.sessions ≡ false
      → has_session u (request_code enforced acceptable fits now i a code w).sessions ≡ false
  request-has now i a code u w h = ap (has_session u) (request-sessions now i a code w) ∙ h

  -- Where a user without a session has one after an event, the event was a code sent to the user, who
  -- may sign in by mail and has no second factor, or a second factor that fits while the first one is
  -- pending.
  pub session-Granted :
      (e : Event) (u : ℕ) (w : World)
      → has_session u w.sessions ≡ false
      → has_session u (step enforced acceptable fits e w).sessions ≡ true
      → Granted e u w
  unfolding step unauthenticated submit_code submit_otp visit code_attempt user_pending sign_out ban
      unban
  session-Granted (requests_code now i a code) u w h e = absurd (
      ground (
        arith,
        request-has now i a code u (visit now w) (visit-has now u w h),
        unless-has _ (request_code enforced acceptable fits now i a code) u (visit now w)
            (visit-has now u w h) e,
      ))
  session-Granted (submits_code now token typed) u w h e =
      code_from-has now token typed _ u (visit now w) refl (visit-has now u w h) (
        unless-has _ (submit_code enforced acceptable fits now token typed) u (visit now w)
          (visit-has now u w h) e)
  session-Granted (submits_otp now token typed) u w h e =
      otp_from-has now token typed _ u (visit now w) refl (visit-has now u w h) (
        unless-has _ (submit_otp enforced acceptable fits now token typed) u (visit now w)
          (visit-has now u w h) e)
  session-Granted (visits now) u w h e = cc (visit-has now u w h)
  session-Granted (signs_out now) u w h e =
      cc (signed_out-has _ u (visit now w) (visit-has now u w h))
  session-Granted (bans i) u w h e = cc (has-delete u i w.sessions h)
  session-Granted (unbans i) u w h e = cc
