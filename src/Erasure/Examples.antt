-- ===== src/Erasure/Examples.antt =====
-- A member of an organization with two admins closes the account.
use moneygun.Base.{
  ℕ, ◌≡◌, refl, Bool, true, false, [], ◌∷◌, List, Option, none, some, Text, codes, text_eq,
}
use moneygun.Members.{Membership, Organization, admin, manual, find_by_user, other_active_admin}
use moneygun.Sessions.Owners.{has_session}
use moneygun.MagicLinks.{sign_in}
use moneygun.SignIn.{User, find_user}
use moneygun.SignIn.Steps.{Event, requests_code, submits_code, submits_otp, unbans, run}
use moneygun.Erasure.{Place, done, undeletable, redact}
use moneygun.Erasure.Closing.{in_any, has_link, redact_done}
use moneygun.Erasure.Afterwards.{redacted_stays_out}

abbrev alice : User
alice = record {
  id = 1;
  email = codes "a@x";
  banned = false;
  redacted = false;
  email_verified = true;
  factor = record {
    otp_secret = some (codes "base32");
    otp_enabled_at = some 10;
    otp_backup_codes = [];
  };
}

abbrev admin_since : ℕ → Membership
admin_since u = record {
  user_id = u;
  role = admin;
  deactivated_at = none;
  provisioned_via = manual;
}

abbrev shop : Organization
shop = record {
  owner_id = 2;
  memberships = admin_since 1 ∷ admin_since 2 ∷ [];
  invitations = record { id = 5; email = codes "a@x"; role = admin; expires_at = 90 } ∷ [];
}

abbrev club : Organization
club = record { owner_id = 3; memberships = admin_since 3 ∷ []; invitations = [] }

abbrev place : Place
place = record {
  world = record {
    users = alice ∷ [];
    links =
        record {
          user_id = 1;
          purpose = sign_in;
          code = codes "123456";
          new_email = none;
          expires_at = 900;
        }
        ∷ [];
    sessions = record { user_id = 1; token = codes "t1"; created_at = 0; last_seen_at = none } ∷ [];
    session_token = none;
    pending_authentication = some (record { value = codes "a@x"; expires_at = 900 });
    pending_two_factor = some (record { value = 1; expires_at = 900 });
  };
  orgs = shop ∷ club ∷ [];
}

abbrev address : ℕ → Text
address u = codes "redacted-"

abbrev valid : Text → Bool
valid e = true

abbrev anybody : Text → Bool
anybody e = true

abbrev fits : ℕ → Option Text → Text → Bool
fits now secret code = true

-- The only admin of an organization may not close the account.
sole_admin_stays : undeletable 3 (place.orgs) ≡ true
unfolding undeletable other_active_admin find_by_user
sole_admin_stays = refl

alice_may_close : undeletable 1 (place.orgs) ≡ false
unfolding undeletable other_active_admin find_by_user
alice_may_close = refl

redact_done_example :
    (after : Place) × (redact text_eq address valid 50 alice place ≡ done after)
    × (in_any 1 after.orgs ≡ false)
    × (has_session 1 after.world.sessions ≡ false)
    × (has_link 1 after.world.links ≡ false)
redact_done_example = redact_done text_eq address valid 50 alice place refl alice_may_close refl

abbrev events : List Event
events =
    requests_code 60 1 (codes "a@x") (codes "654321")
    ∷ submits_otp 61 (codes "t2") (codes "492039")
    ∷ unbans 1
    ∷ submits_code 62 (codes "t3") (codes "123456")
    ∷ []

redacted_stays_out_example :
    has_session 1
      (run
        (λ e. false)
        anybody
        fits
        events
        (redact_done text_eq address valid 50 alice place refl alice_may_close
          refl).0.world).sessions
    ≡ false
unfolding find_user
redacted_stays_out_example =
    let done_at_50 = redact_done text_eq address valid 50 alice place refl alice_may_close refl in
    redacted_stays_out text_eq address valid (λ e. false) anybody fits events 50 alice place
      done_at_50.0 refl done_at_50.1
