-- ===== src/SignIn/Bans.antt =====
-- What a ban is worth.
use moneygun.Base.{
  ℕ, ◌<◌, ◌≡◌, refl, Bool, true, false, List, [], ◌∷◌, Option, none, some, Text, All, lt→ltb, arith,
  Bool-cases, inl, inr,
}
use moneygun.Sessions.{resume}
use moneygun.Sessions.Owners.{has_session, has-create, has-delete_all}
use moneygun.TwoFactor.{Factor, verify_otp}
use moneygun.SignIn.{User, World, find_user, verified, establish, visit, unauthenticated, ban}
use moneygun.SignIn.Steps.{
  Event, submits_code, submits_otp, bans, after_otp, otp_from, user_pending, submit_otp, step, run,
}
use moneygun.SignIn.Gains.{Granted, session-Granted, find_user-id}
use moneygun.SignIn.Users.{
  is_banned, banned_in, holds-update, update-holds, find-updated, found_holds,
}
use moneygun.SignIn.Kept.{
  pends, IsOut, Leaves, banned_refused, step-pends, step-banned, pending-pends,
}

module _ (enforced acceptable : Text → Bool) (fits : ℕ → Option Text → Text → Bool) where
  -- A banned user without a session and without a pending second factor is granted nothing.
  Granted-not :
      (e : Event) (u : ℕ) (w : World) → IsOut u w → Granted enforced acceptable fits e u w → ⊥
  unfolding user_pending
  Granted-not (submits_code now token typed) u w v (a, l, x, q, c, f, i, g, t) =
      let b = found_holds is_banned u l.user_id w.users x f i v.banned in
      absurd (ground (arith, banned_refused enforced acceptable fits x b, g))
  Granted-not (submits_otp now token typed) u w v (x, q, i, g) = absurd (
      ground (
        arith,
        pending-pends enforced acceptable fits now u w.pending_two_factor w.users x q i,
        v.not_pending,
      ))
  Granted-not _ u w v g = g

  step-IsOut :
      (e : Event) (u : ℕ) (w : World)
      → Leaves u e
      → IsOut u w
      → IsOut u (step enforced acceptable fits e w)
  step-IsOut e u w l v = record {
    banned = step-banned enforced acceptable fits e u w l v.banned;
    no_session = elim (Bool-cases (has_session u (step enforced acceptable fits e w).sessions)) [
      | inl h ↦
          absurd
            (Granted-not e u w v (session-Granted enforced acceptable fits e u w v.no_session h))
      | inr h ↦ h
    ];
    not_pending = step-pends enforced acceptable fits e u w v;
  }

  run-IsOut :
      (es : List Event) (u : ℕ) (w : World)
      → All (Leaves u) es
      → IsOut u w
      → IsOut u (run enforced acceptable fits es w)
  unfolding run
  run-IsOut [] u w l v = v
  run-IsOut (e ∷ es) u w l v = run-IsOut es u _ l.1 (step-IsOut e u w l.0 v)

  -- A user who is banned while no second factor of theirs is pending has no session from then on,
  -- whatever happens, until the ban ends.
  pub ban_holds :
      (es : List Event) (u : ℕ) (w : World) (x : User)
      → find_user u w.users ≡ some x
      → pends u w.pending_two_factor ≡ false
      → All (Leaves u) es
      → has_session u (run enforced acceptable fits (bans u ∷ es) w).sessions ≡ false
  unfolding run step ban
  ban_holds es u w x f p l =
      (run-IsOut es u _ l (record {
        banned =
            update-holds is_banned u (λ v. record v { banned = true }) w.users x (λ v. refl)
              (λ v. refl) f;
        no_session = has-delete_all u w.sessions;
        not_pending = p;
      })).no_session

  after_otp-granted :
      (now : ℕ) (token : Text) (u : ℕ) (p : Factor × Bool) (w : World)
      → p.1 ≡ true
      → banned_in u w.users ≡ true
      → let out = after_otp enforced acceptable fits now token u p w in
        (banned_in u out.users ≡ true) × (has_session u out.sessions ≡ true)
  unfolding after_otp establish
  after_otp-granted now token u (f, false) w h b = cc
  after_otp-granted now token u (f, true) w h b = (
    holds-update is_banned u u (λ x. record x { factor = f }) w.users (λ x. refl) (λ x p q c. c) b,
    ground (arith, has-create u now u token w.sessions),
  )

  -- A ban between the two factors does not hold: where the first factor of a user is still pending in
  -- a browser, and the user is banned then, a second factor that fits makes a session for them.
  pub ban_between_factors :
      (u : ℕ) (w : World) (x : User) (now expiry : ℕ) (token typed : Text)
      → find_user u w.users ≡ some x
      → now < expiry
      → (verify_otp (fits now) typed x.factor).1 ≡ true
      → let before : World = record w {
        session_token = none;
        pending_two_factor = some (record { value = u; expires_at = expiry });
      } in
        let out = run enforced acceptable fits (bans u ∷ submits_otp now token typed ∷ []) before in
        (banned_in u out.users ≡ true) × (has_session u out.sessions ≡ true)
  unfolding run step ban unauthenticated visit resume submit_otp user_pending verified otp_from
  ban_between_factors u w x now expiry token typed f l v =
      rw (lt→ltb now expiry l, find-updated u w.users x f, find_user-id u w.users x f)
        (after_otp-granted now token u (verify_otp (fits now) typed x.factor) _ v (
          update-holds is_banned u (λ v. record v { banned = true }) w.users x (λ v. refl)
            (λ v. refl) f))
