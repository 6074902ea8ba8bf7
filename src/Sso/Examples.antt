-- ===== src/Sso/Examples.antt =====
-- Two connections that want the same domain, and a user who signs in through the first one.
use moneygun.Base.{
  ℕ, ◌≡◌, refl, Bool, true, false, List, [], ◌∷◌, none, some, Text, codes, text_eq, arith,
}
use moneygun.Members.{Membership, admin, member, manual, by_sso, find_by_user}
use moneygun.SignIn.{User, find_by_email, can_authenticate}
use moneygun.Sso.{Domain, domain_for, asserts_email, Event, adds, verifies, run}
use moneygun.Sso.Resolution.{
  granted, denied, user_cannot_authenticate, Place, Settings, resolve_sign_in,
}
use moneygun.Sso.Domains.{one_speaker}
use moneygun.Sso.Granting.{IsMember, resolve_granted}

abbrev same : Text → Text
same s = s

last_part : domain_for same (codes "a@b@x.io@") ≡ some (codes "x.io")
unfolding domain_for
last_part = refl

-- The second connection cannot verify what the first one has.
abbrev claims : List Event
claims =
    adds true 1 10 (codes "x.io")
    ∷ adds true 2 20 (codes "x.io")
    ∷ verifies 60 true 1
    ∷ verifies 70 true 2
    ∷ []

first_asserts : asserts_email same 10 (codes "a@x.io") (run claims []) ≡ true
unfolding asserts_email run text_eq
first_asserts = refl

one_speaker_example : asserts_email same 20 (codes "a@x.io") (run claims []) ≡ false
one_speaker_example =
    one_speaker same claims 10 20 (codes "a@x.io") first_asserts (λ e. omega (arith, e))

abbrev domains : List Domain
domains = record { id = 1; connection_id = 10; domain = codes "x.io"; verified_at = some 60 } ∷ []

abbrev ann : User
ann = record {
  id = 1;
  email = codes "a@x.io";
  banned = false;
  redacted = false;
  email_verified = true;
  factor = record { otp_secret = none; otp_enabled_at = none; otp_backup_codes = [] };
}

abbrev ann_row : Membership
ann_row = record { user_id = 1; role = admin; deactivated_at = none; provisioned_via = manual }

abbrev place : Place
place = record {
  users = ann ∷ record ann { id = 2; email = codes "b@x.io"; banned = true } ∷ [];
  org = record { owner_id = 1; memberships = ann_row ∷ []; invitations = [] };
}

abbrev settings : Settings
settings = record { jit_provisioning = true; default_membership_role = member }

abbrev new_row : Membership
new_row = record { user_id = 3; role = member; deactivated_at = none; provisioned_via = by_sso }

abbrev nobody : ℕ → Bool
nobody u = false

abbrev any_text : Text → Bool
any_text s = true

newcomer :
    (resolve_sign_in nobody any_text same 10 settings 3 (codes "c@x.io") domains place).1
    ≡ granted new_row
unfolding resolve_sign_in find_by_email text_eq
newcomer = refl

no_third : find_by_user 3 place.org.memberships ≡ none
unfolding find_by_user
no_third = refl

resolve_granted_example :
    (asserts_email same 10 (codes "c@x.io") domains ≡ true)
    × IsMember
        (codes "c@x.io")
        new_row
        (resolve_sign_in nobody any_text same 10 settings 3 (codes "c@x.io") domains place).0
resolve_granted_example =
    resolve_granted nobody any_text same 10 settings 3 (codes "c@x.io") domains place new_row
      no_third newcomer

banned_denied :
    (resolve_sign_in nobody any_text same 10 settings 3 (codes "b@x.io") domains place).1
    ≡ denied user_cannot_authenticate
unfolding resolve_sign_in find_by_email text_eq can_authenticate
banned_denied = refl
