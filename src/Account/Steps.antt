-- ===== src/Account/Steps.antt =====
-- The actions on an account, and any sequence of them.
use moneygun.Base.{
  ℕ, ◌+◌, Bool, true, false, not, ◌&&◌, ◌||◌, List, [], ◌∷◌, Option, none, some, Text, text_eq,
  if◌then◌else◌,
}
use moneygun.MagicLinks.{email_change, sudo, Link, consume, send_magic_link}
use moneygun.MagicLinks.Granted.{code_of}
use moneygun.TwoFactor.{
  Factor, two_factor_enabled, verify_otp, enable_two_factor, disable_two_factor,
}
use moneygun.SignIn.{User, World, update_user, verified}
use moneygun.Account.{
  Desk, as_user, sudo_active, start_sudo, sign_in_user, leave_session, has_sudo_code, set_factor,
  address_taken, taken_by_other, only_current,
}

unfoldable pub with_links : List Link → Desk → Desk
with_links ls d = record d { world = record d.world { links = ls } }

-- `send_magic_link(for: :sudo)`.
unfoldable pub send_sudo_code : ℕ → Text → User → Desk → Desk
unfolding with_links send_magic_link
send_sudo_code now code x d = with_links (send_magic_link now x.id sudo none code d.world.links) d

-- `SudoController#new`, with `issue_sudo_code`.
unfoldable pub ask_sudo : ℕ → Text → User → Desk → Desk
unfolding send_sudo_code has_sudo_code
ask_sudo now code x d =
    if two_factor_enabled x.factor || has_sudo_code now x.id d.world.links
    then d
    else send_sudo_code now code x d

-- `resend`.
unfoldable pub resend_sudo : ℕ → Text → User → Desk → Desk
unfolding send_sudo_code
resend_sudo now code x d = if two_factor_enabled x.factor then d else send_sudo_code now code x d

unfoldable pub is_found : Option Link → Bool
is_found none = false
is_found (some l) = true

unfoldable pub factor_checked : ℕ → Factor × Bool → World → World × Bool
unfolding set_factor
factor_checked u r w = (set_factor u r.0 w, r.1)

unfoldable pub link_checked : List Link × Option Link → World → World × Bool
unfolding is_found
link_checked r w = (record w { links = r.0 }, is_found r.1)

unfoldable pub confirmed : ℕ → ℕ → World × Bool → Desk → Desk
unfolding start_sudo
confirmed now u (w, false) d = record d { world = w }
confirmed now u (w, true) d = start_sudo now u (record d { world = w })

unfoldable pub change_email : Text → User → Desk → Desk
unfolding only_current update_user
change_email e x d = record d {
  world = record d.world {
    users = update_user x.id (λ v. record v { email = e; email_verified = true }) d.world.users;
    sessions = only_current d.world.session_token x.id d.world.sessions;
  };
  pending_email_change = none;
}

unfoldable pub or_else : Option Text → Text → Option Text
or_else none t = some t
or_else (some s) t = some s

unfoldable pub disabled : ℕ → Factor × Bool → World → World
unfolding set_factor disable_two_factor
disabled u (f, false) w = set_factor u f w
disabled u (f, true) w = set_factor u (disable_two_factor f) w

-- `TwoFactorController#new`; `secret` is the random one.
unfoldable pub open_factor : ℕ → Text → User → Desk → Desk
unfolding or_else sudo_active
open_factor now secret x d =
    if not (two_factor_enabled x.factor) && sudo_active now x.id d
    then record d { otp_setup_secret = or_else d.otp_setup_secret secret }
    else d

-- The validations of an address, and the one-time passwords at a time.
module _ (acceptable : Text → Bool) (fits : ℕ → Option Text → Text → Bool) where
  -- `verify_sudo_challenge`.
  unfoldable pub verify_sudo_challenge : ℕ → Text → User → World → World × Bool
  unfolding factor_checked link_checked code_of consume verify_otp
  verify_sudo_challenge now typed x w =
      if two_factor_enabled x.factor
      then factor_checked x.id (verify_otp (fits now) typed x.factor) w
      else link_checked (consume (code_of now x.id typed sudo none) w.links) w

  -- `SudoController#create`.
  unfoldable pub confirm_sudo : ℕ → Text → User → Desk → Desk
  unfolding confirmed verify_sudo_challenge
  confirm_sudo now typed x d = confirmed now x.id (verify_sudo_challenge now typed x d.world) d

  -- `EmailChangesController#create`, for an address that is stripped and in lower case.
  unfoldable pub ask_email : ℕ → Text → Text → User → Desk → Desk
  unfolding sudo_active address_taken with_links send_magic_link
  ask_email now e code x d =
      if sudo_active now x.id d
        && (not (text_eq e x.email) && (not (address_taken e d.world.users) && acceptable e))
      then record (with_links (send_magic_link now x.id email_change (some e) code d.world.links)
          d) { pending_email_change = some (record { value = e; expires_at = now + 900 }) }
      else d

  -- `complete_email_change`; `update!` raises for an address that is not valid or taken.
  unfoldable pub email_completed : User → Option Text → Desk → Desk
  unfolding change_email taken_by_other
  email_completed x none d = d
  email_completed x (some e) d =
      if acceptable e && not (taken_by_other x.id e d.world.users) then change_email e x d else d

  unfoldable pub email_found : User → List Link × Option Link → Desk → Desk
  unfolding email_completed with_links
  email_found x (ls, none) d = with_links ls d
  email_found x (ls, some l) d = email_completed x l.new_email (with_links ls d)

  unfoldable pub email_from : ℕ → Text → User → Option Text → Desk → Desk
  unfolding email_found code_of consume
  email_from now typed x none d = d
  email_from now typed x (some []) d = d
  email_from now typed x (some (c ∷ cs)) d =
      email_found x (consume (code_of now x.id typed email_change (some (c ∷ cs))) d.world.links) d

  -- `EmailChangesController#update`, with `ensure_pending_email_change`.
  unfoldable pub confirm_email : ℕ → Text → User → Desk → Desk
  unfolding email_from verified
  confirm_email now typed x d = email_from now typed x (verified now d.pending_email_change) d

  unfoldable pub enrolled : ℕ → Text → List Text → User → Option Text → Desk → Desk
  unfolding set_factor enable_two_factor
  enrolled now typed codes x none d = d
  enrolled now typed codes x (some s) d =
      if fits now (some s) typed
      then record d {
        world = set_factor x.id (enable_two_factor now s codes x.factor) d.world;
        otp_setup_secret = none;
      }
      else d

  -- `TwoFactorController#create`.
  unfoldable pub enrol : ℕ → Text → List Text → User → Desk → Desk
  unfolding enrolled sudo_active
  enrol now typed codes x d =
      if sudo_active now x.id d then enrolled now typed codes x d.otp_setup_secret d else d

  -- `TwoFactorController#destroy`.
  unfoldable pub disable : ℕ → Text → User → Desk → Desk
  unfolding disabled verify_otp
  disable now typed x d =
      if two_factor_enabled x.factor
      then record d { world = disabled x.id (verify_otp (fits now) typed x.factor) d.world }
      else d

pub data Event : Type 0 where
  signs_in : ℕ → Text → ℕ → Event
  signs_out : ℕ → Event
  asks_sudo resends_sudo confirms_sudo : ℕ → Text → Event
  asks_email : ℕ → Text → Text → Event
  confirms_email : ℕ → Text → Event
  opens_factor : ℕ → Text → Event
  enrols : ℕ → Text → List Text → Event
  disables : ℕ → Text → Event

module _ (acceptable : Text → Bool) (fits : ℕ → Option Text → Text → Bool) where
  unfoldable pub step : Event → Desk → Desk
  unfolding as_user ask_sudo resend_sudo confirm_sudo ask_email confirm_email open_factor enrol
      disable sign_in_user leave_session
  step (signs_in now token u) d = sign_in_user now token u d
  step (signs_out now) d = leave_session now d
  step (asks_sudo now code) d = as_user now (ask_sudo now code) d
  step (resends_sudo now code) d = as_user now (resend_sudo now code) d
  step (confirms_sudo now typed) d = as_user now (confirm_sudo acceptable fits now typed) d
  step (asks_email now e code) d = as_user now (ask_email acceptable fits now e code) d
  step (confirms_email now typed) d = as_user now (confirm_email acceptable fits now typed) d
  step (opens_factor now secret) d = as_user now (open_factor now secret) d
  step (enrols now typed codes) d = as_user now (enrol acceptable fits now typed codes) d
  step (disables now typed) d = as_user now (disable acceptable fits now typed) d

  unfoldable pub run : List Event → Desk → Desk
  unfolding step
  run [] d = d
  run (e ∷ es) d = run es (step e d)
