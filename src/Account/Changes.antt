-- ===== src/Account/Changes.antt =====
-- A change of address from its request to its end, and what it does to the sessions of the user.
use moneygun.Base.{
  ℕ, ◌+◌, ◌≤◌, ◌<◌, lt→ltb, ◌≡◌, refl, ap, ◌∙◌, ◌⊎◌, ◌≢◌, Bool, true, false, not, ◌&&◌, ◌||◌, ◌==◌,
  ==_iff, List, [], ◌∷◌, Option, none, some, Text, text_eq, text_eq_refl, keep_if, arith,
  Bool-cases, inl, inr,
}
use moneygun.MagicLinks.{email_change, Link, consume, matches, is_digit, send_magic_link}
use moneygun.MagicLinks.Codes.{IsCode, head_granted, not_blank}
use moneygun.MagicLinks.Granted.{code_of}
use moneygun.Sessions.{Session}
use moneygun.SignIn.{User, find_user, update_user, visit}
use moneygun.Account.{
  Desk, current_user, as_user, sudo_active, address_taken, taken_by_other, is_token, only_current,
}
use moneygun.Account.Steps.{
  confirms_email, with_links, change_email, ask_email, email_completed, email_found, email_from,
  confirm_email, step,
}
use moneygun.Account.Guards.{value_of, value_of-other, with_user-has, if_has}

abbrev pub address_of : ℕ → List User → Option Text
address_of u us = value_of (λ v. v.email) u us

-- Whether a user has a session that is not the one with the token.
abbrev pub has_other : Option Text → ℕ → List Session → Bool
has_other k u [] = false
has_other k u (s ∷ ss) = (s.user_id == u && not (is_token k s.token)) || has_other k u ss

cut : (k : Option Text) (u : ℕ) (ss : List Session) → has_other k u (only_current k u ss) ≡ false
unfolding only_current
cut k u [] = refl
cut k u (s ∷ ss) = ground (arith, cut k u ss)

-- The address stays, or only the session of the browser is left.
abbrev Cut : ℕ → Desk → Desk → Type 0
Cut u d d' =
    (address_of u d'.world.users ≡ address_of u d.world.users)
    ⊎ (has_other d'.world.session_token u d'.world.sessions ≡ false)

not_taken :
    (u : ℕ) (e : Text) (us : List User) → address_taken e us ≡ false → taken_by_other u e us ≡ false
unfolding address_taken taken_by_other
not_taken u e [] h = refl
not_taken u e (v ∷ vs) h = ground (arith, not_taken u e vs)

address_set :
    (i : ℕ) (e : Text) (us : List User) (x : User)
    → find_user i us ≡ some x
    → address_of i (update_user i (λ v. record v { email = e; email_verified = true }) us) ≡ some e
unfolding find_user update_user
address_set i e [] x f = cc
address_set i e (v ∷ vs) x f = ground (arith, address_set i e vs x)

module _ (acceptable : Text → Bool) (fits : ℕ → Option Text → Text → Bool) where
  changed-Cut : (u : ℕ) (e : Text) (x : User) (d : Desk) → Cut u d (change_email e x d)
  unfolding change_email
  changed-Cut u e x d = elim (Bool-cases (x.id == u)) [
    | inl h ↦ inr (
        ap
          (λ i.
            has_other d.world.session_token u
              (only_current d.world.session_token i d.world.sessions))
          ((==_iff x.id u).0 h)
        ∙ cut d.world.session_token u d.world.sessions)
    | inr h ↦ inl (value_of-other (λ v. v.email) u x.id _ d.world.users h (λ v. refl))
  ]

  completed-Cut :
      (u : ℕ) (x : User) (o : Option Text) (d : Desk)
      → Cut u d (email_completed acceptable fits x o d)
  unfolding email_completed
  completed-Cut u x none d = inl refl
  completed-Cut u x (some e) d =
      if_has (Cut u d) (acceptable e && not (taken_by_other x.id e d.world.users)) _ d
        (λ b. changed-Cut u e x d) (λ b. inl refl)

  found-Cut :
      (u : ℕ) (x : User) (r : List Link × Option Link) (d : Desk)
      → Cut u d (email_found acceptable fits x r d)
  unfolding email_found with_links
  found-Cut u x (ls, none) d = inl refl
  found-Cut u x (ls, some l) d = completed-Cut u x l.new_email (with_links ls d)

  email-Cut :
      (u now : ℕ) (typed : Text) (x : User) (o : Option Text) (d : Desk)
      → Cut u d (email_from acceptable fits now typed x o d)
  unfolding email_from
  email-Cut u now typed x none d = inl refl
  email-Cut u now typed x (some []) d = inl refl
  email-Cut u now typed x (some (c ∷ cs)) d = found-Cut u x _ d

  -- Where the confirmation of a new address changes the address of a user, no session of theirs is left
  -- but that of the browser.
  pub change_cuts :
      (now u : ℕ) (typed : Text) (d : Desk)
      → address_of u (step acceptable fits (confirms_email now typed) d).world.users
        ≢ address_of u d.world.users
      → has_other
          (step acceptable fits (confirms_email now typed) d).world.session_token
          u
          (step acceptable fits (confirms_email now typed) d).world.sessions
        ≡ false
  unfolding step as_user visit confirm_email
  change_cuts now u typed d n =
      elim (with_user-has (Cut u d) (current_user now d.world)
        (confirm_email acceptable fits now typed) (record d { world = visit now d.world })
        (inl refl) (λ x f. email-Cut u now typed x _ _)) [ inl h ↦ absurd (n h) | inr h ↦ h ]

  sent_found :
      (now later u : ℕ) (code typed : Text) (c : ℕ) (cs : Text) (ls : List Link)
      → IsCode code
      → keep_if is_digit typed ≡ code
      → later ≤ now + 900
      → (consume
          (code_of later u typed email_change (some (c ∷ cs)))
          (send_magic_link now u email_change (some (c ∷ cs)) code ls)).1
        ≡ some (record {
          user_id = u;
          purpose = email_change;
          code = code;
          new_email = some (c ∷ cs);
          expires_at = now + 900;
        })
  unfolding send_magic_link matches code_of
  sent_found now later u code typed c cs ls i h l =
      head_granted _ _ _
        (ground (arith, not_blank typed code h i.0, text_eq_refl code, text_eq_refl (c ∷ cs)))

  completed_reached :
      (e : Text) (x : User) (o : Option Text) (d : Desk)
      → o ≡ some e
      → find_user x.id d.world.users ≡ some x
      → acceptable e ≡ true
      → taken_by_other x.id e d.world.users ≡ false
      → address_of x.id (email_completed acceptable fits x o d).world.users ≡ some e
  unfolding email_completed change_email
  completed_reached e x none d q f a t = cc
  completed_reached e x (some y) d q f a t =
      let s : y ≡ e = cc in rw (s, a, t) (address_set x.id e d.world.users x f)

  found_reached :
      (e : Text) (x : User) (r : List Link × Option Link) (l : Link) (d : Desk)
      → r.1 ≡ some l
      → l.new_email ≡ some e
      → find_user x.id d.world.users ≡ some x
      → acceptable e ≡ true
      → taken_by_other x.id e d.world.users ≡ false
      → address_of x.id (email_found acceptable fits x r d).world.users ≡ some e
  unfolding email_found with_links
  found_reached e x (ls, none) l d h q f a t = cc
  found_reached e x (ls, some m) l d h q f a t =
      completed_reached e x m.new_email (with_links ls d) (cc (h, q)) f a t

  -- A user with sudo who asks for a new address that is valid, free and not blank, and types the
  -- digits of the code that was sent to it before 15 minutes are over, has the new address.
  pub new_address_reached :
      (now later : ℕ) (code typed : Text) (c : ℕ) (cs : Text) (x : User) (d : Desk)
      → find_user x.id d.world.users ≡ some x
      → sudo_active now x.id d ≡ true
      → text_eq (c ∷ cs) x.email ≡ false
      → address_taken (c ∷ cs) d.world.users ≡ false
      → acceptable (c ∷ cs) ≡ true
      → IsCode code
      → keep_if is_digit typed ≡ code
      → later < now + 900
      → address_of x.id
          (confirm_email acceptable fits later typed x
            (ask_email acceptable fits now (c ∷ cs) code x d)).world.users
        ≡ some (c ∷ cs)
  unfolding ask_email confirm_email email_from with_links
  new_address_reached now later code typed c cs x d f s n t a i h l =
      rw (s, n, t, a, lt→ltb later (now + 900) l)
        (found_reached (c ∷ cs) x _ _ _
          (sent_found now later x.id code typed c cs d.world.links i h (omega (arith, l))) refl f a
          (not_taken x.id (c ∷ cs) d.world.users t))
