-- ===== src/SignIn/Safety.antt =====
-- What earns a session, down to the rows of the tables: app/models/magic_link.rb and
-- concerns/user/two_factor.rb behind the controllers.
use moneygun.Base.{
  ℕ, ◌<◌, ◌≡◌, refl, sym, ◌∙◌, ap, Bool, true, false, List, [], ◌∷◌, Option, none, some, Text,
  text_eq_iff, ==_iff, arith, Bool-cases, inl, inr,
}
use mathlib.Core.List.{Mem, mem-cons_self, mem-cons_of_mem}
use moneygun.MagicLinks.{Link}
use moneygun.MagicLinks.Granted.{SignsIn, granted-SignsIn}
use moneygun.Sessions.Owners.{has_session}
use moneygun.TwoFactor.{two_factor_enabled}
use moneygun.TwoFactor.Backup.{IsFactor, verify_otp-IsFactor}
use moneygun.SignIn.{User, Token, World, find_user, can_authenticate, verified, has_email}
use moneygun.SignIn.Steps.{
  Event, submits_code, submits_otp, can_authenticate_with_magic_link, code_attempt, pending_user,
  user_pending, step,
}
use moneygun.SignIn.Gains.{Granted, session-Granted, find_user-id}

verified-live :
    {A : Type 0} (now : ℕ) (o : Option (Token A)) (x : A)
    → verified now o ≡ some x
    → (t : Token A) × (o ≡ some t) × (now < t.expires_at) × (t.value ≡ x)
unfolding verified
verified-live now none x h = cc
verified-live now (some t) x h = (t, refl, ground (arith, h), ground (arith, h))

has_email-row :
    (e : Text) (i : ℕ) (us : List User)
    → has_email e i us ≡ true
    → (v : User) × Mem v us × (v.id ≡ i) × (v.email ≡ e)
unfolding has_email
has_email-row e i [] h = cc
has_email-row e i (u ∷ us) h = elim (Bool-cases (has_email e i us)) [
  | inl b ↦ let r = has_email-row e i us b in (r.0, mem-cons_of_mem u r.1, r.2, r.3)
  | inr b ↦ (
    u,
    mem-cons_self,
    ground (arith, b, h, ==_iff u.id i),
    (text_eq_iff u.email e).0 (ground (arith, b, h)),
  )
]

module _ (enforced acceptable : Text → Bool) (fits : ℕ → Option Text → Text → Bool) where
  pending_user-found :
      (o : Option ℕ) (us : List User) (x : User)
      → pending_user enforced acceptable fits o us ≡ some x
      → (i : ℕ) × (o ≡ some i) × (find_user i us ≡ some x)
  unfolding pending_user
  pending_user-found none us x h = cc
  pending_user-found (some i) us x h = (i, refl, h)

  -- The code that was typed is that of a live link of the user, whose address is pending in the
  -- browser; the user may sign in by mail and has no second factor.
  pub record IsByCode (now : ℕ) (typed : Text) (u : ℕ) (w : World) : Type 0 where
    token : Token Text
    pending : w.pending_authentication ≡ some token
    in_time : now < token.expires_at
    row : User
    row_kept : Mem row w.users
    row_of_user : row.id ≡ u
    row_address : row.email ≡ token.value
    link : Link
    link_of_user : link.user_id ≡ u
    signs_in : SignsIn now typed w.links link
    user : User
    user_found : find_user u w.users ≡ some user
    not_banned : user.banned ≡ false
    not_redacted : user.redacted ≡ false
    not_enforced : enforced user.email ≡ false
    no_factor : two_factor_enabled user.factor ≡ false

  -- The code that was typed is a second factor of the user who is pending in the browser.
  pub record IsByFactor (now : ℕ) (typed : Text) (u : ℕ) (w : World) : Type 0 where
    token : Token ℕ
    pending : w.pending_two_factor ≡ some token
    in_time : now < token.expires_at
    token_of_user : token.value ≡ u
    user : User
    user_found : find_user u w.users ≡ some user
    enabled : two_factor_enabled user.factor ≡ true
    factor : IsFactor (fits now) typed user.factor

  abbrev pub Earned : Event → ℕ → World → Type 0
  Earned (submits_code now token typed) u w = IsByCode now typed u w
  Earned (submits_otp now token typed) u w = IsByFactor now typed u w
  Earned _ u w = ⊥

  Granted-Earned :
      (e : Event) (u : ℕ) (w : World) → Granted enforced acceptable fits e u w → Earned e u w
  unfolding user_pending code_attempt can_authenticate_with_magic_link can_authenticate
  Granted-Earned (submits_code now token typed) u w (a, l, x, q, c, f, i, g, t) =
      let live = verified-live now w.pending_authentication a q in
      let s =
        granted-SignsIn (code_attempt enforced acceptable fits now a typed w) w.links l refl c in
      let r = has_email-row a l.user_id w.users s.1 in
      let of : l.user_id ≡ u = sym (find_user-id l.user_id w.users x f) ∙ i in
      record {
        token = live.0;
        pending = live.1;
        in_time = live.2;
        row = r.0;
        row_kept = r.1;
        row_of_user = r.2 ∙ of;
        row_address = r.3 ∙ sym live.3;
        link = l;
        link_of_user = of;
        signs_in = s.0;
        user = x;
        user_found = ap (λ k. find_user k w.users) (sym of) ∙ f;
        not_banned = ground (arith, g);
        not_redacted = ground (arith, g);
        not_enforced = ground (arith, g);
        no_factor = t;
      }
  Granted-Earned (submits_otp now token typed) u w (x, q, i, g) =
      let p = pending_user-found (verified now w.pending_two_factor) w.users x q in
      let live = verified-live now w.pending_two_factor p.0 p.1 in
      let of : p.0 ≡ u = sym (find_user-id p.0 w.users x p.2) ∙ i in
      let v = verify_otp-IsFactor (fits now) typed x.factor g in
      record {
        token = live.0;
        pending = live.1;
        in_time = live.2;
        token_of_user = live.3 ∙ of;
        user = x;
        user_found = ap (λ k. find_user k w.users) (sym of) ∙ p.2;
        enabled = v.0;
        factor = v.1;
      }
  Granted-Earned _ u w g = g

  -- Where a user without a session has one after an event, the event was one of two. Either the code
  -- was typed of a link in the table that has not expired, is for signing in or up, and is the user's;
  -- an address that a row of the user holds is pending in the browser and in time; and the user is
  -- neither banned nor redacted, is not held to single sign-on, and has no second factor. Or the user is
  -- pending in the browser, in time, has a second factor enabled, and typed the one-time password of its
  -- secret or one of its backup codes.
  pub session_needs_factors :
      (e : Event) (u : ℕ) (w : World)
      → has_session u w.sessions ≡ false
      → has_session u (step enforced acceptable fits e w).sessions ≡ true
      → Earned e u w
  session_needs_factors e u w h s =
      Granted-Earned e u w (session-Granted enforced acceptable fits e u w h s)
