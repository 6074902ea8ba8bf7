-- ===== src/Account.antt =====
-- What a user who is signed in does with the own account: app/controllers/concerns/sudo.rb and the
-- controllers sudo, email_changes and two_factor of app/controllers/users, on top of SignIn. One
-- browser with its cookies, those of the Rails session among them, stands beside the tables. What
-- makes an address valid and which one-time passwords fit are parameters. Rate limits, logs, mails and
-- redirects are left out. Times are seconds.
pub mod Steps
pub mod Sudo
pub mod Guards
pub mod Quiet
pub mod Edits
pub mod Addresses
pub mod Changes
mod Examples
use moneygun.Base.{
  ℕ, ◌+◌, ◌≡◌, Bool, true, false, not, ◌&&◌, ◌||◌, ◌==◌, List, [], ◌∷◌, Option, none, some, Text,
  text_eq, leb, ltb, keep_if, if◌then◌else◌,
}
use moneygun.MagicLinks.{
  Purpose, email_change, sudo, Link, same_purpose, Attempt, consume, send_magic_link,
}
use moneygun.Sessions.{Session, resume}
use moneygun.TwoFactor.{
  Factor, two_factor_enabled, verify_otp, enable_two_factor, disable_two_factor,
}
use moneygun.SignIn.{
  Token, User, World, find_user, update_user, verified, establish, visit, sign_out,
}

pub record Desk : Type 0 where
  pub world : World
  -- the Rails session
  pub sudo_at : Option ℕ
  pub sudo_user_id : Option ℕ
  pub otp_setup_secret : Option Text
  -- the cookie of a change of address
  pub pending_email_change : Option (Token Text)

-- `SUDO_DURATION`.
abbrev pub sudo_duration : ℕ
sudo_duration = 1800

user_of_session : Option Session → List User → Option User
user_of_session none us = none
user_of_session (some s) us = find_user s.user_id us

-- `current_user` after `resume_session`.
unfoldable pub current_user : ℕ → World → Option User
unfolding user_of_session
current_user now w = user_of_session (resume now w.session_token w.sessions).1 w.users

pub with_user : Option User → (User → Desk → Desk) → Desk → Desk
with_user none k d = d
with_user (some x) k d = k x d

-- `require_authentication`: the action runs for the user of the session that is resumed.
pub as_user : ℕ → (User → Desk → Desk) → Desk → Desk
unfolding with_user current_user visit
as_user now k d = with_user (current_user now d.world) k (record d { world = visit now d.world })

is_id : Option ℕ → ℕ → Bool
is_id none u = false
is_id (some i) u = i == u

still : ℕ → Option ℕ → Bool
still now none = false
still now (some t) = ltb now (t + sudo_duration)

-- `sudo_active?`; nothing is subtracted, so there is no time before zero.
pub sudo_active : ℕ → ℕ → Desk → Bool
unfolding is_id still
sudo_active now u d = is_id d.sudo_user_id u && still now d.sudo_at

-- `start_sudo!`.
pub start_sudo : ℕ → ℕ → Desk → Desk
start_sudo now u d = record d { sudo_at = some now; sudo_user_id = some u }

-- `establish_authenticated_session`, at the end of any sign-in.
pub sign_in_user : ℕ → Text → ℕ → Desk → Desk
unfolding start_sudo establish
sign_in_user now token u d = start_sudo now u (record d { world = establish now token u d.world })

pub reset_session : Option User → Desk → Desk
reset_session none d = d
reset_session (some x) d = record d { sudo_at = none; sudo_user_id = none; otp_setup_secret = none }

-- `terminate_session`.
pub leave_session : ℕ → Desk → Desk
unfolding reset_session current_user sign_out
leave_session now d =
    reset_session (current_user now d.world) (record d { world = sign_out now d.world })

-- `magic_links.for_sudo.active.exists?`.
has_sudo_code : ℕ → ℕ → List Link → Bool
unfolding same_purpose
has_sudo_code now u [] = false
has_sudo_code now u (l ∷ ls) =
    (l.user_id == u && (same_purpose l.purpose sudo && leb now l.expires_at))
    || has_sudo_code now u ls

-- The row of a user gets a second factor.
unfoldable pub set_factor : ℕ → Factor → World → World
unfolding update_user
set_factor u f w = record w { users = update_user u (λ v. record v { factor = f }) w.users }

-- `User.exists?(email:)`.
pub address_taken : Text → List User → Bool
address_taken e [] = false
address_taken e (v ∷ vs) = text_eq v.email e || address_taken e vs

-- The uniqueness of the address of a user.
pub taken_by_other : ℕ → Text → List User → Bool
taken_by_other u e [] = false
taken_by_other u e (v ∷ vs) = (text_eq v.email e && not (v.id == u)) || taken_by_other u e vs

pub is_token : Option Text → Text → Bool
is_token none k = false
is_token (some t) k = text_eq k t

-- `sessions.where.not(id: Current.session.id).destroy_all`.
pub only_current : Option Text → ℕ → List Session → List Session
unfolding is_token
only_current k u ss = keep_if (λ s. not (s.user_id == u && not (is_token k s.token))) ss
