-- ===== src/Erasure/Afterwards.antt =====
-- What a closed account can still do: nothing that leads to a session.
use moneygun.Base.{
  ℕ, ◌≡◌, refl, Bool, true, false, not, ◌&&◌, ◌||◌, List, [], ◌∷◌, Option, none, some, Text, arith,
  Bool-cases, inl, inr,
}
use mathlib.Core.Path.{subst}
use moneygun.Members.{Organization}
use moneygun.Sessions.Owners.{has_session, has-delete_all}
use moneygun.TwoFactor.{Factor, two_factor_enabled, verify_otp, disable_two_factor}
use moneygun.SignIn.{User, World, find_user, update_user}
use moneygun.SignIn.Steps.{
  Event, submits_code, submits_otp, unbans, can_authenticate_with_magic_link, pending_user,
  user_pending, step, run,
}
use moneygun.SignIn.Gains.{Granted, session-Granted}
use moneygun.SignIn.Users.{holds_in, update-holds, found_holds}
use moneygun.SignIn.Rows.{Spares, step-holds}
use moneygun.Erasure.{Place, done, redact, redact_with, redacted_user, cut_off, undeletable}

-- A redacted user without a second factor.
abbrev pub closed : User → Bool
closed v = v.redacted && not (two_factor_enabled v.factor)

module _ (fits : ℕ → Option Text → Text → Bool) where
  -- Without a second factor no code is one.
  verify-disabled :
      (now : ℕ) (typed : Text) (f : Factor)
      → two_factor_enabled f ≡ false
      → verify_otp (fits now) typed f ≡ (f, false)
  unfolding verify_otp
  verify-disabled now typed f h = ground arith

  closed_kept :
      (now : ℕ) (typed : Text) (x v : User)
      → closed x ≡ true
      → closed v ≡ true
      → closed (record v { factor = (verify_otp (fits now) typed x.factor).0 }) ≡ true
  closed_kept now typed x v h k = ground (arith, verify-disabled now typed x.factor)

-- A closed account without a session.
record IsClosed (u : ℕ) (w : World) : Type 0 where
  row : holds_in closed u w.users ≡ true
  no_session : has_session u w.sessions ≡ false

module _ (enforced acceptable : Text → Bool) (fits : ℕ → Option Text → Text → Bool) where
  closed_refused :
      (x : User)
      → closed x ≡ true
      → can_authenticate_with_magic_link enforced acceptable fits x ≡ false
  unfolding can_authenticate_with_magic_link
  closed_refused x h = ground arith

  pending-closed :
      (o : Option ℕ) (us : List User) (u : ℕ) (x : User)
      → holds_in closed u us ≡ true
      → pending_user enforced acceptable fits o us ≡ some x
      → x.id ≡ u
      → closed x ≡ true
  unfolding pending_user
  pending-closed none us u x h f e = cc
  pending-closed (some i) us u x h f e = found_holds closed u i us x f e h

  Granted-not :
      (e : Event) (u : ℕ) (w : World) → IsClosed u w → Granted enforced acceptable fits e u w → ⊥
  unfolding user_pending
  Granted-not (submits_code now token typed) u w v (a, l, x, q, c, f, i, g, t) =
      let b = found_holds closed u l.user_id w.users x f i v.row in
      absurd (ground (arith, closed_refused x b, g))
  Granted-not (submits_otp now token typed) u w v (x, q, i, g) =
      let b = pending-closed _ w.users u x v.row q i in
      absurd (ground (arith, verify-disabled fits now typed x.factor, b, g))
  Granted-not _ u w v g = g

  spared :
      (e : Event) (u : ℕ)
      → Spares enforced acceptable fits closed (λ v h. h) (closed_kept fits) (λ v h. h) u e
  spared (unbans i) u = λ v a b h. h
  spared _ u = _

  step-IsClosed :
      (e : Event) (u : ℕ) (w : World)
      → IsClosed u w
      → IsClosed u (step enforced acceptable fits e w)
  step-IsClosed e u w v = record {
    row =
        step-holds enforced acceptable fits closed (λ v h. h) (closed_kept fits) (λ v h. h) e u w
          (spared e u) v.row;
    no_session = elim (Bool-cases (has_session u (step enforced acceptable fits e w).sessions)) [
      | inl h ↦
          absurd
            (Granted-not e u w v (session-Granted enforced acceptable fits e u w v.no_session h))
      | inr h ↦ h
    ];
  }

  run-IsClosed :
      (es : List Event) (u : ℕ) (w : World)
      → IsClosed u w
      → IsClosed u (run enforced acceptable fits es w)
  unfolding run
  run-IsClosed [] u w v = v
  run-IsClosed (e ∷ es) u w v = run-IsClosed es u _ (step-IsClosed e u w v)

module _ (same_email : Text → Text → Bool) (address : ℕ → Text) (valid : Text → Bool) where
  redacted_user-closed : (v : User) → closed (redacted_user address v) ≡ true
  unfolding redacted_user disable_two_factor two_factor_enabled
  redacted_user-closed v = elim (Bool-cases (two_factor_enabled v.factor)) [
    | inl e ↦ rw e refl
    | inr e ↦ rw (e, e) refl
  ]

  -- The world after a redaction.
  redacted_world : ℕ → World → World
  unfolding cut_off redacted_user
  redacted_world u w = record (cut_off u w) {
    users = update_user u (redacted_user address) w.users;
  }

  redacted_world-IsClosed :
      (u : ℕ) (w : World) (x : User)
      → find_user u w.users ≡ some x
      → IsClosed u (redacted_world u w)
  unfolding redacted_world cut_off redacted_user
  redacted_world-IsClosed u w x f = record {
    row =
        update-holds closed u (redacted_user address) w.users x (λ v. refl) redacted_user-closed f;
    no_session = has-delete_all u w.sessions;
  }

  done-IsClosed :
      (u : ℕ) (orgs : List Organization) (w : World) (x : User) (p : Place)
      → find_user u w.users ≡ some x
      → done (record { world = redacted_world u w; orgs = orgs }) ≡ done p
      → IsClosed u p.world
  done-IsClosed u orgs w x p f h =
      let e : redacted_world u w ≡ p.world = cc in
      subst (IsClosed u) e (redacted_world-IsClosed u w x f)

  redact_with-IsClosed :
      (u : ℕ) (o : Option (List Organization)) (w : World) (x : User) (p : Place)
      → find_user u w.users ≡ some x
      → redact_with same_email address valid u o w ≡ done p
      → IsClosed u p.world
  unfolding redact_with redacted_world
  redact_with-IsClosed u none w x p f h = cc
  redact_with-IsClosed u (some orgs) w x p f h = elim (Bool-cases (valid (address u))) [
    | inl v ↦ done-IsClosed u orgs w x p f (rw v at h)
    | inr v ↦ cc
  ]

  module _ (enforced acceptable : Text → Bool) (fits : ℕ → Option Text → Text → Bool) where
    -- Once the account of a user who is in the table is redacted, the user has no session after any
    -- requests of a browser that signs in by mail, bans and ends of bans.
    pub redacted_stays_out :
        (es : List Event) (now : ℕ) (x : User) (p after : Place)
        → find_user x.id p.world.users ≡ some x
        → redact same_email address valid now x p ≡ done after
        → has_session x.id (run enforced acceptable fits es after.world).sessions ≡ false
    unfolding redact
    redacted_stays_out es now x p after f h =
        elim (Bool-cases (x.redacted || undeletable x.id p.orgs)) [
          | inl d ↦ cc
          | inr d ↦
              (run-IsClosed enforced acceptable fits es x.id after.world
                (redact_with-IsClosed x.id _ p.world x after f (rw d at h))).no_session
        ]
