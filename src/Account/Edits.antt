-- ===== src/Account/Edits.antt =====
-- Which action edits the row of a user, and what it takes.
use moneygun.Base.{
  ℕ, ◌≡◌, refl, ap, sym, ◌∙◌, ◌⊎◌, Bool, true, false, not, ◌&&◌, List, [], ◌∷◌, Option, none, some,
  Text, arith, Bool-cases, inl, inr,
}
use moneygun.MagicLinks.{email_change, Link, consume}
use moneygun.MagicLinks.Granted.{code_of, Proves, granted-Proves, granted_new_email}
use moneygun.TwoFactor.{
  Factor, two_factor_enabled, verify_otp, enable_two_factor, disable_two_factor,
}
use moneygun.SignIn.{User, World, update_user, verified, visit, establish, sign_out}
use moneygun.SignIn.Rows.{sign_out-users}
use moneygun.Account.{
  Desk, current_user, as_user, sudo_active, sign_in_user, leave_session, set_factor, taken_by_other,
}
use moneygun.Account.Steps.{
  Event, signs_in, signs_out, asks_sudo, resends_sudo, confirms_sudo, asks_email, confirms_email,
  opens_factor, enrols, disables, with_links, ask_sudo, resend_sudo, factor_checked, link_checked,
  confirmed, change_email, disabled, open_factor, verify_sudo_challenge, confirm_sudo, ask_email,
  email_completed, email_found, email_from, confirm_email, enrolled, enrol, disable, step,
}
use moneygun.Account.Guards.{with_user-has, if_has}
use moneygun.Account.Quiet.{ask-users, resend-users, ask_email-users, open-users, reset-users}

module _ (acceptable : Text → Bool) (fits : ℕ → Option Text → Text → Bool) where
  -- What an event may do to the row of the user who acts, and what it needs for that.
  abbrev pub Edit : Event → User → Desk → (User → User) → Type 0
  Edit (confirms_sudo now typed) x d f =
      f ≡ (λ v. record v { factor = (verify_otp (fits now) typed x.factor).0 })
  Edit (confirms_email now typed) x d f =
      (e : Text) × (l : Link) × (f ≡ (λ v. record v { email = e; email_verified = true }))
      × (verified now d.pending_email_change ≡ some e)
      × (acceptable e ≡ true)
      × (taken_by_other x.id e d.world.users ≡ false)
      × (l.new_email ≡ some e)
      × Proves now x.id typed email_change l
  Edit (enrols now typed codes) x d f =
      (s : Text) × (f ≡ (λ v. record v { factor = enable_two_factor now s codes x.factor }))
      × (sudo_active now x.id d ≡ true)
      × (d.otp_setup_secret ≡ some s)
      × (fits now (some s) typed ≡ true)
  Edit (disables now typed) x d f =
      let r = verify_otp (fits now) typed x.factor in
      ((f ≡ (λ v. record v { factor = r.0 })) × (r.1 ≡ false))
      ⊎ ((f ≡ (λ v. record v { factor = disable_two_factor x.factor })) × (r.1 ≡ true))
  Edit _ x d f = ⊥

  -- The rows are as they were, or that of the user who acts is edited.
  abbrev pub Edits : Event → Option User → Desk → Desk → Type 0
  Edits e o d d' =
      (d'.world.users ≡ d.world.users)
      ⊎ ((x : User) × (f : User → User) × (o ≡ some x)
          × (d'.world.users ≡ update_user x.id f d.world.users)
          × Edit e x d f)

  confirmed-users :
      (now i : ℕ) (r : World × Bool) (d : Desk) → (confirmed now i r d).world.users ≡ r.0.users
  unfolding confirmed
  confirmed-users now i (w, false) d = refl
  confirmed-users now i (w, true) d = refl

  confirm-Edits :
      (now : ℕ) (typed : Text) (x : User) (d : Desk)
      → Edits (confirms_sudo now typed) (some x) d (confirm_sudo acceptable fits now typed x d)
  unfolding confirm_sudo confirmed verify_sudo_challenge factor_checked link_checked set_factor
  confirm-Edits now typed x d =
      let u =
        confirmed-users now x.id (verify_sudo_challenge acceptable fits now typed x d.world) d in
      elim (Bool-cases (two_factor_enabled x.factor)) [
        | inl b ↦ inr (x, _, refl, u ∙ rw b refl, refl)
        | inr b ↦ inl (u ∙ rw b refl)
      ]

  completed-Edits :
      (now : ℕ) (typed : Text) (x : User) (l : Link) (e : Text) (o : Option Text) (d : Desk)
      → o ≡ some e
      → verified now d.pending_email_change ≡ some e
      → l.new_email ≡ some e
      → Proves now x.id typed email_change l
      → Edits (confirms_email now typed) (some x) d (email_completed acceptable fits x o d)
  unfolding email_completed change_email
  completed-Edits now typed x l e none d q v h p = cc
  completed-Edits now typed x l e (some a) d q v h p =
      if_has (Edits (confirms_email now typed) (some x) d)
        (acceptable a && not (taken_by_other x.id a d.world.users)) (change_email a x d) d
        (λ b. inr (
          x,
          _,
          refl,
          refl,
          (a, l, refl, v ∙ sym q, ground (arith, b), ground (arith, b), h ∙ sym q, p),
        ))
        (λ b. inl refl)

  found-Edits :
      (now : ℕ) (typed : Text) (x : User) (e : Text) (r : List Link × Option Link) (d : Desk)
      → verified now d.pending_email_change ≡ some e
      → ((l : Link) → r.1 ≡ some l → (l.new_email ≡ some e) × Proves now x.id typed email_change l)
      → Edits (confirms_email now typed) (some x) d (email_found acceptable fits x r d)
  unfolding email_found with_links
  found-Edits now typed x e (ls, none) d v p = inl refl
  found-Edits now typed x e (ls, some l) d v p =
      let q = p l refl in
      completed-Edits now typed x l e l.new_email (with_links ls d) q.0 v q.0 q.1

  email-Edits :
      (now : ℕ) (typed : Text) (x : User) (o : Option Text) (d : Desk)
      → verified now d.pending_email_change ≡ o
      → Edits (confirms_email now typed) (some x) d (email_from acceptable fits now typed x o d)
  unfolding email_from
  email-Edits now typed x none d v = inl refl
  email-Edits now typed x (some []) d v = inl refl
  email-Edits now typed x (some (c ∷ cs)) d v =
      found-Edits now typed x (c ∷ cs)
        (consume (code_of now x.id typed email_change (some (c ∷ cs))) d.world.links) d v
        (λ l h. (
          granted_new_email now x.id typed email_change c cs d.world.links l h,
          granted-Proves now x.id typed email_change (some (c ∷ cs)) d.world.links l h,
        ))

  enrolled-Edits :
      (now : ℕ) (typed : Text) (codes : List Text) (x : User) (o : Option Text) (d : Desk)
      → d.otp_setup_secret ≡ o
      → sudo_active now x.id d ≡ true
      → Edits (enrols now typed codes) (some x) d (enrolled acceptable fits now typed codes x o d)
  unfolding enrolled set_factor
  enrolled-Edits now typed codes x none d h a = inl refl
  enrolled-Edits now typed codes x (some s) d h a =
      if_has (Edits (enrols now typed codes) (some x) d) (fits now (some s) typed) _ d
        (λ b. inr (x, _, refl, refl, (s, refl, a, h, b))) (λ b. inl refl)

  enrol-Edits :
      (now : ℕ) (typed : Text) (codes : List Text) (x : User) (d : Desk)
      → Edits (enrols now typed codes) (some x) d (enrol acceptable fits now typed codes x d)
  unfolding enrol
  enrol-Edits now typed codes x d =
      if_has (Edits (enrols now typed codes) (some x) d) (sudo_active now x.id d) _ d
        (enrolled-Edits now typed codes x d.otp_setup_secret d refl) (λ b. inl refl)

  disabled-Edits :
      (now : ℕ) (typed : Text) (x : User) (r : Factor × Bool) (d : Desk)
      → verify_otp (fits now) typed x.factor ≡ r
      → Edits (disables now typed) (some x) d (record d { world = disabled x.id r d.world })
  unfolding disabled set_factor
  disabled-Edits now typed x (f, false) d q =
      inr (x, _, refl, refl, inl (ap (λ r v. record v { factor = r.0 }) (sym q), ap (λ r. r.1) q))
  disabled-Edits now typed x (f, true) d q = inr (x, _, refl, refl, inr (refl, ap (λ r. r.1) q))

  disable-Edits :
      (now : ℕ) (typed : Text) (x : User) (d : Desk)
      → Edits (disables now typed) (some x) d (disable acceptable fits now typed x d)
  unfolding disable
  disable-Edits now typed x d =
      if_has (Edits (disables now typed) (some x) d) (two_factor_enabled x.factor) _ d
        (λ b. disabled-Edits now typed x (verify_otp (fits now) typed x.factor) d refl)
        (λ b. inl refl)

  acted-Edits :
      (now : ℕ) (e : Event) (k : User → Desk → Desk) (d : Desk)
      → ((x : User) (d' : Desk) → Edits e (some x) d' (k x d'))
      → ((x : User) (f : User → User)
          → Edit e x (record d { world = visit now d.world }) f
          → Edit e x d f)
      → Edits e (current_user now d.world) d (as_user now k d)
  unfolding as_user visit
  acted-Edits now e k d q r =
      let d' : Desk = record d { world = visit now d.world } in
      with_user-has (Edits e (current_user now d.world) d) (current_user now d.world) k d'
        (inl refl)
        (λ x c. elim (q x d') [
          | inl h ↦ inl h
          | inr (y, f, s, u, h) ↦ inr (y, f, c ∙ s, u, r y f h)
        ])

  -- An action that changes no row.
  quiet :
      (now : ℕ) (e : Event) (k : User → Desk → Desk) (d : Desk)
      → ((x : User) (d' : Desk) → (k x d').world.users ≡ d'.world.users)
      → Edits e (current_user now d.world) d (as_user now k d)
  unfolding as_user visit
  quiet now e k d q =
      let d' : Desk = record d { world = visit now d.world } in
      with_user-has (Edits e (current_user now d.world) d) (current_user now d.world) k d'
        (inl refl) (λ x c. inl (q x d'))

  -- The user of the session that a request resumes.
  abbrev pub acting : Event → Desk → Option User
  acting (signs_in now token u) d = none
  acting (signs_out now) d = current_user now d.world
  acting (asks_sudo now code) d = current_user now d.world
  acting (resends_sudo now code) d = current_user now d.world
  acting (confirms_sudo now typed) d = current_user now d.world
  acting (asks_email now e code) d = current_user now d.world
  acting (confirms_email now typed) d = current_user now d.world
  acting (opens_factor now secret) d = current_user now d.world
  acting (enrols now typed codes) d = current_user now d.world
  acting (disables now typed) d = current_user now d.world

  pub step-Edits : (e : Event) (d : Desk) → Edits e (acting e d) d (step acceptable fits e d)
  unfolding step sign_in_user establish leave_session sign_out visit confirm_email sudo_active
  step-Edits (signs_in now token u) d = inl refl
  step-Edits (signs_out now) d =
      inl (reset-users (current_user now d.world) _ ∙ sign_out-users now d.world)
  step-Edits (asks_sudo now code) d =
      quiet now (asks_sudo now code) (ask_sudo now code) d (ask-users now code)
  step-Edits (resends_sudo now code) d =
      quiet now (resends_sudo now code) (resend_sudo now code) d (resend-users now code)
  step-Edits (confirms_sudo now typed) d =
      acted-Edits now (confirms_sudo now typed) (confirm_sudo acceptable fits now typed) d
        (confirm-Edits now typed) (λ x f h. h)
  step-Edits (asks_email now e code) d =
      quiet now (asks_email now e code) (ask_email acceptable fits now e code) d
        (ask_email-users acceptable fits now e code)
  step-Edits (confirms_email now typed) d =
      acted-Edits now (confirms_email now typed) (confirm_email acceptable fits now typed) d
        (λ x d'. email-Edits now typed x _ d' refl) (λ x f h. h)
  step-Edits (opens_factor now secret) d =
      quiet now (opens_factor now secret) (open_factor now secret) d (open-users now secret)
  step-Edits (enrols now typed codes) d =
      acted-Edits now (enrols now typed codes) (enrol acceptable fits now typed codes) d
        (enrol-Edits now typed codes) (λ x f h. h)
  step-Edits (disables now typed) d =
      acted-Edits now (disables now typed) (disable acceptable fits now typed) d
        (disable-Edits now typed) (λ x f h. h)
