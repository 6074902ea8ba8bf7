-- ===== src/Account/Examples.antt =====
-- A user with two sessions changes the address, and gets sudo by mail.
use moneygun.Base.{
  ℕ, ◌≡◌, ◌≢◌, refl, ap, Bool, true, false, [], ◌∷◌, Option, none, some, Text, codes, text_eq,
  arith,
}
use moneygun.MagicLinks.{email_change, sudo, matches}
use moneygun.Sessions.{Session, resume}
use moneygun.SignIn.{User, find_user}
use moneygun.Account.{Desk, sudo_active, address_taken}
use moneygun.Account.Steps.{confirms_sudo, confirms_email, ask_email, confirm_email, step, run}
use moneygun.Account.Sudo.{Sudoed, sudo_needs_challenge}
use moneygun.Account.Edits.{Edits}
use moneygun.Account.Addresses.{AreApart, run-AreApart}
use moneygun.Account.Changes.{address_of, has_other, change_cuts, new_address_reached}

abbrev anybody : Text → Bool
anybody e = true

abbrev fits : ℕ → Option Text → Text → Bool
fits now none code = false
fits now (some secret) code = text_eq code (codes "492039")

abbrev user : ℕ → Text → User
user i e = record {
  id = i;
  email = e;
  banned = false;
  redacted = false;
  email_verified = true;
  factor = record { otp_secret = none; otp_enabled_at = none; otp_backup_codes = [] };
}

abbrev session : Text → Session
session k = record { user_id = 1; token = k; created_at = 0; last_seen_at = none }

abbrev alice : User
alice = user 1 (codes "a@x")

-- The first session is that of the browser; a code for a new address and one for sudo are on their way.
abbrev desk : Desk
desk = record {
  world = record {
    users = alice ∷ user 2 (codes "b@x") ∷ [];
    links =
        record {
          user_id = 1;
          purpose = email_change;
          code = codes "123456";
          new_email = some (codes "c@x");
          expires_at = 900;
        }
        ∷ record {
          user_id = 1;
          purpose = sudo;
          code = codes "654321";
          new_email = none;
          expires_at = 900;
        }
        ∷ [];
    sessions = session (codes "t1") ∷ session (codes "t2") ∷ [];
    session_token = some (codes "t1");
    pending_authentication = none;
    pending_two_factor = none;
  };
  sudo_at = none;
  sudo_user_id = none;
  otp_setup_secret = none;
  pending_email_change = some (record { value = codes "c@x"; expires_at = 900 });
}

sudo_needs_challenge_example : Sudoed anybody fits (confirms_sudo 60 (codes "654 321")) 1 desk
unfolding sudo_active step resume text_eq find_user matches
sudo_needs_challenge_example =
    sudo_needs_challenge anybody fits (confirms_sudo 60 (codes "654 321")) 61 1 desk refl refl

run-AreApart_example :
    AreApart
      (run anybody fits
        (confirms_sudo 60 (codes "654321") ∷ confirms_email 61 (codes "123456") ∷ [])
        desk).world.users
unfolding address_taken text_eq
run-AreApart_example =
    run-AreApart anybody fits
      (confirms_sudo 60 (codes "654321") ∷ confirms_email 61 (codes "123456") ∷ []) desk
      (refl, refl, (refl, refl, tt))

abbrev is_old : Option Text → Bool
is_old none = false
is_old (some e) = text_eq e (codes "a@x")

address_changed :
    address_of 1 (step anybody fits (confirms_email 60 (codes "123456")) desk).world.users
    ≢ address_of 1 desk.world.users
unfolding step resume text_eq find_user matches
address_changed = λ h. let e : false ≡ true = ap is_old h in absurd (cc e)

change_cuts_example :
    has_other
      (step anybody fits (confirms_email 60 (codes "123456")) desk).world.session_token
      1
      (step anybody fits (confirms_email 60 (codes "123456")) desk).world.sessions
    ≡ false
change_cuts_example = change_cuts anybody fits 60 1 (codes "123456") desk address_changed

abbrev with_sudo : Desk
with_sudo = record desk { sudo_at = some 50; sudo_user_id = some 1 }

new_address_reached_example :
    address_of 1
      (confirm_email anybody fits 200
        (codes "777 777")
        alice
        (ask_email anybody fits 100 (codes "d@x") (codes "777777") alice with_sudo)).world.users
    ≡ some (codes "d@x")
unfolding find_user sudo_active address_taken text_eq
new_address_reached_example =
    new_address_reached anybody fits 100 200 (codes "777777") (codes "777 777") 100 (codes "@x")
      alice with_sudo refl refl refl refl refl
      (refl, (refl, (refl, (refl, (refl, (refl, (refl, tt))))))) refl (omega arith)
