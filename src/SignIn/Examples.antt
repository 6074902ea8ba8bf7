-- ===== src/SignIn/Examples.antt =====
-- Two users, the second of whom has a second factor, and a browser that waits for a code of the first.
use moneygun.Base.{
  ℕ, ◌≡◌, refl, Bool, true, false, [], ◌∷◌, List, Option, none, some, Text, codes, text_eq, All,
  arith,
}
use moneygun.MagicLinks.{Link, consume, matches, sign_in}
use moneygun.TwoFactor.{verify_otp, two_factor_enabled}
use moneygun.Sessions.{resume, create}
use moneygun.Sessions.Owners.{has_session}
use moneygun.SignIn.{User, World, find_user, verified}
use moneygun.SignIn.Steps.{
  Event, requests_code, submits_code, submits_otp, visits, bans, unbans, step, run, code_attempt,
  can_authenticate_with_magic_link,
}
use moneygun.SignIn.Safety.{Earned, session_needs_factors}
use moneygun.SignIn.Users.{banned_in}
use moneygun.SignIn.Kept.{Leaves}
use moneygun.SignIn.Bans.{ban_holds, ban_between_factors}

abbrev nobody : Text → Bool
nobody e = false

abbrev anybody : Text → Bool
anybody e = true

abbrev fits : ℕ → Option Text → Text → Bool
fits now none code = false
fits now (some secret) code = text_eq code (codes "492039")

abbrev alice : User
alice = record {
  id = 1;
  email = codes "a@x";
  banned = false;
  redacted = false;
  email_verified = true;
  factor = record { otp_secret = none; otp_enabled_at = none; otp_backup_codes = [] };
}

abbrev bob : User
bob = record {
  id = 2;
  email = codes "b@x";
  banned = false;
  redacted = false;
  email_verified = true;
  factor = record {
    otp_secret = some (codes "base32");
    otp_enabled_at = some 10;
    otp_backup_codes = [];
  };
}

abbrev link : Link
link = record {
  user_id = 1;
  purpose = sign_in;
  code = codes "123456";
  new_email = none;
  expires_at = 900;
}

abbrev start : World
start = record {
  users = alice ∷ bob ∷ [];
  links = link ∷ [];
  sessions = [];
  session_token = none;
  pending_authentication = some (record { value = codes "a@x"; expires_at = 900 });
  pending_two_factor = none;
}

signed_in :
    has_session 1
      (step nobody anybody fits (submits_code 60 (codes "t") (codes "123456")) start).sessions
    ≡ true
unfolding step text_eq find_user verified code_attempt can_authenticate_with_magic_link create
    resume consume matches two_factor_enabled
signed_in = refl

session_needs_factors_example :
    Earned nobody anybody fits (submits_code 60 (codes "t") (codes "123456")) 1 start
session_needs_factors_example =
    session_needs_factors nobody anybody fits (submits_code 60 (codes "t") (codes "123456")) 1 start
      refl signed_in

abbrev evening : List Event
evening =
    submits_code 60 (codes "t") (codes "123456")
    ∷ requests_code 70 3 (codes "a@x") (codes "654321")
    ∷ submits_code 80 (codes "u") (codes "654321")
    ∷ unbans 2
    ∷ visits 90
    ∷ []

evening-Leaves : All (Leaves 1) evening
evening-Leaves = (tt, (tt, (tt, ((λ e. omega (arith, e)), (tt, tt)))))

alice_found : find_user 1 start.users ≡ some alice
unfolding find_user
alice_found = refl

ban_holds_example :
    has_session 1 (run nobody anybody fits (bans 1 ∷ evening) start).sessions ≡ false
ban_holds_example =
    ban_holds nobody anybody fits evening 1 start alice alice_found refl evening-Leaves

bob_found : find_user 2 start.users ≡ some bob
unfolding find_user
bob_found = refl

otp_granted : (verify_otp (fits 70) (codes "492039") bob.factor).1 ≡ true
unfolding verify_otp text_eq
otp_granted = refl

ban_between_factors_example :
    let before : World = record start {
      session_token = none;
      pending_two_factor = some (record { value = 2; expires_at = 300 });
    } in
    let out =
      run nobody anybody fits (bans 2 ∷ submits_otp 70 (codes "t") (codes "492039") ∷ []) before in
    (banned_in 2 out.users ≡ true) × (has_session 2 out.sessions ≡ true)
ban_between_factors_example =
    ban_between_factors nobody anybody fits 2 start bob 70 300 (codes "t") (codes "492039")
      bob_found (omega arith) otp_granted
