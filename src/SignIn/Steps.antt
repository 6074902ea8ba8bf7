-- ===== src/SignIn/Steps.antt =====
-- The three actions that lead to a session, and any sequence of what happens around them.
use moneygun.Base.{
  ℕ, ◌+◌, Bool, true, false, not, ◌&&◌, List, [], ◌∷◌, ◌++◌, Option, none, some, Text,
  if◌then◌else◌,
}
use moneygun.MagicLinks.{Link, Attempt, sign_in, sign_up, Purpose, consume, send_magic_link}
use moneygun.TwoFactor.{Factor, verify_otp}
use moneygun.SignIn.{
  User, World, find_user, find_by_email, update_user, can_authenticate, verified, establish,
  sign_in_or_verify, has_email, visit, unauthenticated, sign_out, ban, unban,
}

-- `redirect_to_session_magic_link` for the address, and the same for nobody.
unfoldable pub pending_for : Text → ℕ → World → World
pending_for e expiry w = record w {
  pending_authentication = some (record { value = e; expires_at = expiry });
}

-- `User.new(email:)`.
unfoldable pub new_user : ℕ → Text → User
new_user i e = record {
  id = i;
  email = e;
  banned = false;
  redacted = false;
  email_verified = false;
  factor = record { otp_secret = none; otp_enabled_at = none; otp_backup_codes = [] };
}

-- The link is sent to the user, for a code that `generate_code` gave.
unfoldable pub mail_link : ℕ → Text → Purpose → User → World → World
unfolding pending_for
mail_link now code p u w =
    pending_for u.email (now + 900)
      (record w { links = send_magic_link now u.id p none code w.links })

-- `enforced_for_email` of the SSO connections, the validations of a new user, and the one-time
-- passwords at a time.
module _ (enforced acceptable : Text → Bool) (fits : ℕ → Option Text → Text → Bool) where
  unfoldable pub can_authenticate_with_magic_link : User → Bool
  unfolding can_authenticate
  can_authenticate_with_magic_link u = can_authenticate u && not (enforced u.email)

  unfoldable pub sign_up_with : ℕ → ℕ → Text → Text → World → World
  unfolding mail_link new_user
  sign_up_with now i e code w =
      if acceptable e
      then mail_link now code sign_up (new_user i e)
          (record w { users = w.users ++ new_user i e ∷ [] })
      else pending_for e (now + 900) w

  unfoldable pub code_for : ℕ → ℕ → Text → Text → Option User → World → World
  unfolding sign_up_with
  code_for now i e code none w = sign_up_with now i e code w
  code_for now i e code (some u) w =
      if can_authenticate u then mail_link now code sign_in u w else pending_for e (now + 900) w

  -- `SessionsController#create`, for an address that is stripped and in lower case; `i` is the next
  -- number of a user.
  unfoldable pub request_code : ℕ → ℕ → Text → Text → World → World
  unfolding code_for
  request_code now i e code w =
      if enforced e then w else code_for now i e code (find_by_email e w.users) w

  -- What `MagicLinksController#create` asks for.
  unfoldable pub code_attempt : ℕ → Text → Text → World → Attempt
  unfolding has_email
  code_attempt now e typed w = record {
    now = now;
    owns = λ i. has_email e i w.users;
    code = typed;
    purposes = some (sign_in ∷ sign_up ∷ []);
    new_email = none;
  }

  unfoldable pub user_of : Option Link → List User → Option User
  user_of none us = none
  user_of (some l) us = find_user l.user_id us

  unfoldable pub pass_code : ℕ → Text → Option User → World → World
  unfolding sign_in_or_verify
  pass_code now token none w = w
  pass_code now token (some u) w =
      if can_authenticate_with_magic_link u
      then sign_in_or_verify now token u (record w {
        users = update_user u.id (λ v. record v { email_verified = true }) w.users;
        pending_authentication = none;
      })
      else w

  unfoldable pub code_from : ℕ → Text → Text → Option Text → World → World
  unfolding pass_code user_of
  code_from now token typed none w = w
  code_from now token typed (some e) w =
      let found = consume (code_attempt now e typed w) w.links in
      pass_code now token (user_of found.1 w.users) (record w { links = found.0 })

  -- `MagicLinksController#create`; `token` is the random token of a session.
  unfoldable pub submit_code : ℕ → Text → Text → World → World
  unfolding code_from
  submit_code now token typed w =
      code_from now token typed (verified now w.pending_authentication) w

  unfoldable pub after_otp : ℕ → Text → ℕ → Factor × Bool → World → World
  unfolding establish
  after_otp now token i (f, false) w = record w {
    users = update_user i (λ v. record v { factor = f }) w.users;
  }
  after_otp now token i (f, true) w =
      record (establish now token i
        (record w { users = update_user i (λ v. record v { factor = f }) w.users })) {
          pending_two_factor = none;
        }

  unfoldable pub otp_from : ℕ → Text → Text → Option User → World → World
  unfolding after_otp
  otp_from now token typed none w = w
  otp_from now token typed (some u) w =
      after_otp now token u.id (verify_otp (fits now) typed u.factor) w

  unfoldable pub pending_user : Option ℕ → List User → Option User
  pending_user none us = none
  pending_user (some i) us = find_user i us

  -- `user_pending_two_factor`.
  unfoldable pub user_pending : ℕ → World → Option User
  unfolding pending_user
  user_pending now w = pending_user (verified now w.pending_two_factor) w.users

  -- `TwoFactorController#create`.
  unfoldable pub submit_otp : ℕ → Text → Text → World → World
  unfolding otp_from user_pending
  submit_otp now token typed w = otp_from now token typed (user_pending now w) w

pub data Event : Type 0 where
  requests_code : ℕ → ℕ → Text → Text → Event
  submits_code submits_otp : ℕ → Text → Text → Event
  visits : ℕ → Event
  signs_out : ℕ → Event
  bans unbans : ℕ → Event

module _ (enforced acceptable : Text → Bool) (fits : ℕ → Option Text → Text → Bool) where
  unfoldable pub step : Event → World → World
  unfolding unauthenticated request_code submit_code submit_otp visit sign_out ban unban
  step (requests_code now i e code) w =
      unauthenticated now (request_code enforced acceptable fits now i e code) w
  step (submits_code now token typed) w =
      unauthenticated now (submit_code enforced acceptable fits now token typed) w
  step (submits_otp now token typed) w =
      unauthenticated now (submit_otp enforced acceptable fits now token typed) w
  step (visits now) w = visit now w
  step (signs_out now) w = sign_out now w
  step (bans i) w = ban i w
  step (unbans i) w = unban i w

  unfoldable pub run : List Event → World → World
  unfolding step
  run [] w = w
  run (e ∷ es) w = run es (step e w)
