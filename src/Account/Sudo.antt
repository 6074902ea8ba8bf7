-- ===== src/Account/Sudo.antt =====
-- Who gets the rights of sudo.
use moneygun.Base.{
  ℕ, ◌≡◌, refl, ◌∙◌, ◌⊎◌, Bool, true, false, ==_iff, List, [], ◌∷◌, Option, none, some, Text, arith,
  inl, inr, if◌then◌else◌,
}
use moneygun.MagicLinks.{sudo, Link, consume}
use moneygun.MagicLinks.Granted.{code_of, Proves, granted-Proves}
use moneygun.TwoFactor.{two_factor_enabled, verify_otp}
use moneygun.SignIn.{User, World, verified, visit, sign_out}
use moneygun.Account.{
  Desk, current_user, with_user, as_user, sudo_active, start_sudo, sign_in_user, reset_session,
  leave_session, is_id,
}
use moneygun.Account.Steps.{
  Event, signs_in, signs_out, asks_sudo, resends_sudo, confirms_sudo, asks_email, confirms_email,
  opens_factor, enrols, disables, with_links, send_sudo_code, ask_sudo, resend_sudo, is_found,
  factor_checked, link_checked, confirmed, change_email, open_factor, verify_sudo_challenge,
  confirm_sudo, ask_email, email_completed, email_found, email_from, confirm_email, enrolled, enrol,
  disable, step,
}

-- The two parts of a Rails session that say who has sudo.
abbrev SameSudo : Desk → Desk → Type 0
SameSudo d d' = (d'.sudo_at ≡ d.sudo_at) × (d'.sudo_user_id ≡ d.sudo_user_id)

same_active : (t u : ℕ) (d d' : Desk) → SameSudo d d' → sudo_active t u d' ≡ sudo_active t u d
unfolding sudo_active
same_active t u d d' s = rw (s.0, s.1) refl

either_true :
    {A : Type 0}
    → (b : Bool) (p q : A × Bool) → (if b then p else q).1 ≡ true
    → ((b ≡ true) × (p.1 ≡ true)) ⊎ ((b ≡ false) × (q.1 ≡ true))
either_true true p q h = inl (refl, h)
either_true false p q h = inr (refl, h)

module _ (acceptable : Text → Bool) (fits : ℕ → Option Text → Text → Bool) where
  -- A second factor that fits, or a live sudo code of a user without a second factor.
  abbrev Passed : ℕ → Text → User → World → Type 0
  Passed now typed x w =
      ((two_factor_enabled x.factor ≡ true) × ((verify_otp (fits now) typed x.factor).1 ≡ true))
      ⊎ ((l : Link) × (two_factor_enabled x.factor ≡ false)
          × Proves now x.id typed sudo l
          × ((consume (code_of now x.id typed sudo none) w.links).1 ≡ some l))

  -- A sign-in of the user, or a challenge that the user of the browser passes.
  abbrev pub Sudoed : Event → ℕ → Desk → Type 0
  Sudoed (signs_in now token i) u d = i ≡ u
  Sudoed (confirms_sudo now typed) u d =
      (x : User) × (current_user now d.world ≡ some x) × (x.id ≡ u) × Passed now typed x d.world
  Sudoed _ u d = ⊥

  found_link :
      (r : List Link × Option Link) (w : World)
      → (link_checked r w).1 ≡ true
      → (l : Link) × (r.1 ≡ some l)
  unfolding link_checked is_found
  found_link (ls, none) w h = cc
  found_link (ls, some l) w h = (l, refl)

  verify-Passed :
      (now : ℕ) (typed : Text) (x : User) (w : World)
      → (verify_sudo_challenge acceptable fits now typed x w).1 ≡ true
      → Passed now typed x w
  unfolding verify_sudo_challenge factor_checked
  verify-Passed now typed x w h = elim (either_true (two_factor_enabled x.factor) _ _ h) [
    | inl p ↦ inl p
    | inr p ↦
        let f = found_link (consume (code_of now x.id typed sudo none) w.links) w p.1 in
        inr (f.0, p.0, granted-Proves now x.id typed sudo none w.links f.0 f.1, f.1)
  ]

  confirmed-active :
      (now t u i : ℕ) (r : World × Bool) (d : Desk)
      → sudo_active t u d ≡ false
      → sudo_active t u (confirmed now i r d) ≡ true
      → (i ≡ u) × (r.1 ≡ true)
  unfolding confirmed sudo_active start_sudo
  confirmed-active now t u i (w, false) d h e = cc
  confirmed-active now t u i (w, true) d h e = (ground (arith, ==_iff i u), refl)

  with_user-active :
      (o : Option User) (k : User → Desk → Desk) (t u : ℕ) (d : Desk)
      → sudo_active t u d ≡ false
      → sudo_active t u (with_user o k d) ≡ true
      → (x : User) × (o ≡ some x) × (sudo_active t u (k x d) ≡ true)
  unfolding with_user
  with_user-active none k t u d h e = cc
  with_user-active (some x) k t u d h e = (x, refl, e)

  with_user-SameSudo :
      (o : Option User) (k : User → Desk → Desk) (d : Desk)
      → ((x : User) → SameSudo d (k x d))
      → SameSudo d (with_user o k d)
  unfolding with_user
  with_user-SameSudo none k d s = (refl, refl)
  with_user-SameSudo (some x) k d s = s x

  completed-SameSudo :
      (x : User) (o : Option Text) (d : Desk) → SameSudo d (email_completed acceptable fits x o d)
  unfolding email_completed change_email
  completed-SameSudo x none d = (refl, refl)
  completed-SameSudo x (some e) d = (ground arith, ground arith)

  found-SameSudo :
      (x : User) (r : List Link × Option Link) (d : Desk)
      → SameSudo d (email_found acceptable fits x r d)
  unfolding email_found with_links
  found-SameSudo x (ls, none) d = (refl, refl)
  found-SameSudo x (ls, some l) d = completed-SameSudo x l.new_email (with_links ls d)

  email-SameSudo :
      (now : ℕ) (typed : Text) (x : User) (o : Option Text) (d : Desk)
      → SameSudo d (email_from acceptable fits now typed x o d)
  unfolding email_from
  email-SameSudo now typed x none d = (refl, refl)
  email-SameSudo now typed x (some []) d = (refl, refl)
  email-SameSudo now typed x (some (c ∷ cs)) d = found-SameSudo x _ d

  enrolled-SameSudo :
      (now : ℕ) (typed : Text) (codes : List Text) (x : User) (o : Option Text) (d : Desk)
      → SameSudo d (enrolled acceptable fits now typed codes x o d)
  unfolding enrolled
  enrolled-SameSudo now typed codes x none d = (refl, refl)
  enrolled-SameSudo now typed codes x (some s) d = (ground arith, ground arith)

  ask-SameSudo : (now : ℕ) (code : Text) (x : User) (d : Desk) → SameSudo d (ask_sudo now code x d)
  unfolding ask_sudo send_sudo_code with_links
  ask-SameSudo now code x d = (ground arith, ground arith)

  resend-SameSudo :
      (now : ℕ) (code : Text) (x : User) (d : Desk) → SameSudo d (resend_sudo now code x d)
  unfolding resend_sudo send_sudo_code with_links
  resend-SameSudo now code x d = (ground arith, ground arith)

  ask_email-SameSudo :
      (now : ℕ) (e code : Text) (x : User) (d : Desk)
      → SameSudo d (ask_email acceptable fits now e code x d)
  unfolding ask_email with_links
  ask_email-SameSudo now e code x d = (ground arith, ground arith)

  open-SameSudo :
      (now : ℕ) (secret : Text) (x : User) (d : Desk) → SameSudo d (open_factor now secret x d)
  unfolding open_factor
  open-SameSudo now secret x d = (ground arith, ground arith)

  disable-SameSudo :
      (now : ℕ) (typed : Text) (x : User) (d : Desk)
      → SameSudo d (disable acceptable fits now typed x d)
  unfolding disable
  disable-SameSudo now typed x d = (ground arith, ground arith)

  enrol-SameSudo :
      (now : ℕ) (typed : Text) (codes : List Text) (x : User) (d : Desk)
      → SameSudo d (enrol acceptable fits now typed codes x d)
  unfolding enrol
  enrol-SameSudo now typed codes x d =
      let s = enrolled-SameSudo now typed codes x d.otp_setup_secret d in
      (ground (arith, s), ground (arith, s))

  reset-active :
      (o : Option User) (t u : ℕ) (d : Desk)
      → sudo_active t u d ≡ false
      → sudo_active t u (reset_session o d) ≡ false
  unfolding reset_session sudo_active
  reset-active none t u d h = h
  reset-active (some x) t u d h = refl

  action-SameSudo :
      (now t u : ℕ) (k : User → Desk → Desk) (d : Desk)
      → ((x : User) (d' : Desk) → SameSudo d' (k x d'))
      → sudo_active t u d ≡ false
      → sudo_active t u (as_user now k d) ≡ false
  unfolding as_user sudo_active
  action-SameSudo now t u k d s h =
      let d' : Desk = record d { world = visit now d.world } in
      same_active t u d' (with_user (current_user now d.world) k d')
        (with_user-SameSudo (current_user now d.world) k d' (λ x. s x d'))
      ∙ h

  -- Where a user has sudo after an event and had none before it, both read at the same time, the event
  -- was a sign-in of the user, or the user of the resumed session passed the challenge: a second factor that fits, or, without one, a
  -- live sudo code of the own.
  pub sudo_needs_challenge :
      (e : Event) (t u : ℕ) (d : Desk)
      → sudo_active t u d ≡ false
      → sudo_active t u (step acceptable fits e d) ≡ true
      → Sudoed e u d
  unfolding step sign_in_user start_sudo leave_session sudo_active is_id as_user confirm_sudo
      confirm_email
  sudo_needs_challenge (signs_in now token i) t u d h k = ground (arith, h, k, ==_iff i u)
  sudo_needs_challenge (signs_out now) t u d h k =
      cc (reset-active (current_user now d.world) t u (record d { world = sign_out now d.world }) h)
  sudo_needs_challenge (asks_sudo now code) t u d h k =
      cc (action-SameSudo now t u (ask_sudo now code) d (ask-SameSudo now code) h)
  sudo_needs_challenge (resends_sudo now code) t u d h k =
      cc (action-SameSudo now t u (resend_sudo now code) d (resend-SameSudo now code) h)
  sudo_needs_challenge (confirms_sudo now typed) t u d h k =
      let d' : Desk = record d { world = visit now d.world } in
      let p =
        with_user-active (current_user now d.world) (confirm_sudo acceptable fits now typed) t u d'
          h k in
      let q =
        confirmed-active now t u p.0.id
          (verify_sudo_challenge acceptable fits now typed p.0 (visit now d.world)) d' h p.2 in
      (p.0, p.1, q.0, verify-Passed now typed p.0 (visit now d.world) q.1)
  sudo_needs_challenge (asks_email now e code) t u d h k = cc (
      action-SameSudo now t u (ask_email acceptable fits now e code) d
        (ask_email-SameSudo now e code) h)
  sudo_needs_challenge (confirms_email now typed) t u d h k = cc (
      action-SameSudo now t u (confirm_email acceptable fits now typed) d
        (λ x d'. email-SameSudo now typed x (verified now d'.pending_email_change) d') h)
  sudo_needs_challenge (opens_factor now secret) t u d h k =
      cc (action-SameSudo now t u (open_factor now secret) d (open-SameSudo now secret) h)
  sudo_needs_challenge (enrols now typed codes) t u d h k = cc (
      action-SameSudo now t u (enrol acceptable fits now typed codes) d
        (enrol-SameSudo now typed codes) h)
  sudo_needs_challenge (disables now typed) t u d h k =
      cc (
        action-SameSudo now t u (disable acceptable fits now typed) d (disable-SameSudo now typed)
          h)
