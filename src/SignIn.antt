-- ===== src/SignIn.antt =====
-- Signing in by mail and second factor: app/controllers/sessions_controller.rb, the controllers
-- magic_links and two_factor of app/controllers/sessions, app/controllers/concerns/authentication.rb,
-- and app/models/concerns/user/banning.rb, on top of MagicLinks, TwoFactor and Sessions. One browser
-- with its signed cookies stands beside the tables. Rate limits, the captcha, logs and redirects are
-- left out, as is the method "sso". The cookies expire with the tokens in them. Times are seconds.
pub mod Steps
pub mod Gains
pub mod Safety
pub mod Users
pub mod Rows
pub mod Kept
pub mod Bans
mod Examples
use moneygun.Base.{
  ℕ, ◌+◌, ◌≡◌, Bool, true, false, not, ◌&&◌, ◌||◌, ◌==◌, List, [], ◌∷◌, ◌++◌, Option, none, some,
  Text, text_eq, ltb, if◌then◌else◌,
}
use moneygun.MagicLinks.{Link, Attempt, sign_in, sign_up, Purpose, consume, send_magic_link}
use moneygun.Sessions.{Session, find_by_token, expired, resume, create, destroy, delete_all_of}
use moneygun.TwoFactor.{Factor, two_factor_enabled, verify_otp}

pub record User : Type 0 where
  pub id : ℕ
  pub email : Text
  pub banned : Bool
  pub redacted : Bool
  pub email_verified : Bool
  pub factor : Factor

-- A signed token: what it names, and when it expires.
pub record Token (A : Type 0) : Type 0 where
  pub value : A
  pub expires_at : ℕ

pub record World : Type 0 where
  pub users : List User
  pub links : List Link
  pub sessions : List Session
  -- the cookies of the browser
  pub session_token : Option Text
  pub pending_authentication : Option (Token Text)
  pub pending_two_factor : Option (Token ℕ)

unfoldable pub find_user : ℕ → List User → Option User
find_user i [] = none
find_user i (u ∷ us) = let rest = find_user i us in if u.id == i then some u else rest

unfoldable pub find_by_email : Text → List User → Option User
find_by_email e [] = none
find_by_email e (u ∷ us) =
    let rest = find_by_email e us in if text_eq u.email e then some u else rest

-- The row of a user gets new values.
unfoldable pub update_user : ℕ → (User → User) → List User → List User
update_user i f [] = []
update_user i f (u ∷ us) = let rest = update_user i f us in if u.id == i then f u ∷ us else u ∷ rest

unfoldable pub can_authenticate : User → Bool
can_authenticate u = not u.banned && not u.redacted

-- A token that the verifier accepts.
unfoldable pub verified : {A : Type 0} → ℕ → Option (Token A) → Option A
verified now none = none
verified now (some t) = if ltb now t.expires_at then some t.value else none

-- `Session.create!` and `activate_session`.
unfoldable pub establish : ℕ → Text → ℕ → World → World
establish now token i w = record w {
  sessions = create now token i w.sessions;
  session_token = some token;
}

-- `sign_in_or_verify_two_factor`; a second factor may follow within 5 minutes.
pub sign_in_or_verify : ℕ → Text → User → World → World
unfolding establish
sign_in_or_verify now token u w =
    if two_factor_enabled u.factor
    then record w { pending_two_factor = some (record { value = u.id; expires_at = now + 300 }) }
    else establish now token u.id w

pub has_email : Text → ℕ → List User → Bool
has_email e i [] = false
has_email e i (u ∷ us) = (u.id == i && text_eq u.email e) || has_email e i us

-- The cookie of a session that is expired is deleted.
kept_cookie : ℕ → Option Text → Option Session → Option Text
kept_cookie now k none = k
kept_cookie now k (some s) = if expired now s then none else k

session_of : Option Text → List Session → Option Session
session_of none ss = none
session_of (some k) ss = find_by_token k ss

-- `resume_session`.
unfoldable pub visit : ℕ → World → World
unfolding kept_cookie session_of
visit now w = record w {
  sessions = (resume now w.session_token w.sessions).0;
  session_token = kept_cookie now w.session_token (session_of w.session_token w.sessions);
}

unless_resumed : Option Session → (World → World) → World → World
unless_resumed none k w = k w
unless_resumed (some s) k w = w

-- `require_unauthenticated_access`: the action runs if no session is resumed.
pub unauthenticated : ℕ → (World → World) → World → World
unfolding unless_resumed visit
unauthenticated now k w = unless_resumed (resume now w.session_token w.sessions).1 k (visit now w)

destroy_of : Option Text → List Session → List Session
destroy_of none ss = ss
destroy_of (some k) ss = destroy k ss

signed_out : Option Session → World → World
unfolding destroy_of
signed_out none w = w
signed_out (some s) w = record w {
  sessions = destroy_of w.session_token w.sessions;
  session_token = none;
}

-- `SessionsController#destroy`: `require_authentication`, then `terminate_session`. The other cookies
-- stay.
unfoldable pub sign_out : ℕ → World → World
unfolding signed_out visit
sign_out now w = signed_out (resume now w.session_token w.sessions).1 (visit now w)

-- `ban!` and `unban!`.
pub ban : ℕ → World → World
unfolding update_user
ban i w = record w {
  users = update_user i (λ u. record u { banned = true }) w.users;
  sessions = delete_all_of i w.sessions;
}

pub unban : ℕ → World → World
unfolding update_user
unban i w = record w { users = update_user i (λ u. record u { banned = false }) w.users }
