-- ===== src/Scim/Examples.antt =====
-- An organization with its owner and a deactivated member; a third user is outside.
use moneygun.Base.{
  ℕ, ◌≡◌, refl, Bool, true, false, [], ◌∷◌, List, none, some, Text, codes, text_eq, arith,
}
use moneygun.Members.{
  Organization, Membership, saved, admin, member, manual, is_admin, active, find_by_user,
}
use moneygun.Members.Actions.{find_invitation, accept}
use moneygun.Members.Inviting.{already_invited}
use moneygun.Members.Owner.{IsLed}
use moneygun.Members.Gains.{is_in}
use moneygun.Members.Uniqueness.{has_row}
use moneygun.SignIn.{User, find_user, find_by_email}
use moneygun.Erasure.{redacted_in}
use moneygun.Sso.Resolution.{Place}
use moneygun.Scim.{
  Resource, done, needs_consent, returned, member_with, requires_consent, create, Event, creates,
  destroys, replaces, step, run,
}
use moneygun.Scim.Consent.{run_needs_consent}
use moneygun.Scim.Leading.{provisioned_owner_stays}
use moneygun.Scim.Inviting.{consent_lets_in}
use moneygun.Scim.Returning.{create_returns}

abbrev anything : Text → Bool
anything e = true

abbrev user : ℕ → Text → User
user i e = record {
  id = i;
  email = e;
  banned = false;
  redacted = false;
  email_verified = true;
  factor = record { otp_secret = none; otp_enabled_at = none; otp_backup_codes = [] };
}

abbrev former : Membership
former = record { user_id = 2; role = admin; deactivated_at = some 10; provisioned_via = manual }

abbrev place : Place
place = record {
  users = user 1 (codes "a@x") ∷ user 2 (codes "b@x") ∷ user 3 (codes "c@x") ∷ [];
  org = record {
    owner_id = 1;
    memberships =
        record { user_id = 1; role = admin; deactivated_at = none; provisioned_via = manual }
        ∷ former
        ∷ [];
    invitations = [];
  };
}

abbrev asks_for : Text → Resource
asks_for e = record { user_name = e; active = some false }

outsider_is_asked :
    (create anything anything 20 member 4 7 (asks_for (codes "c@x")) place).1 ≡ needs_consent
unfolding create find_user find_by_email text_eq
outsider_is_asked = refl

abbrev events : List Event
events =
    creates 20 4 7 (asks_for (codes "c@x"))
    ∷ creates 21 4 8 (asks_for (codes "d@x"))
    ∷ destroys 22 1
    ∷ replaces 23 2 (some true)
    ∷ []

run_needs_consent_example :
    has_row 3 (run anything anything member events place).org.memberships ≡ false
unfolding step find_user find_by_email text_eq
run_needs_consent_example =
    run_needs_consent anything anything member events 3 (user 3 (codes "c@x")) place
      (refl, (refl, (tt, (tt, tt)))) refl refl

provisioned_owner_stays_example : IsLed (run anything anything member events place).org
unfolding is_admin active
provisioned_owner_stays_example = provisioned_owner_stays anything anything member events place refl

create_returns_example :
    ((create anything anything 20 member 4 7 (asks_for (codes "b@x")) place).1
      ≡ done (returned former))
    × (is_in 2 (create anything anything 20 member 4 7 (asks_for (codes "b@x")) place).0.org ≡ true)
unfolding member_with find_user text_eq active redacted_in
create_returns_example =
    create_returns anything anything 20 member 4 7 (asks_for (codes "b@x")) place former refl refl
      refl

abbrev invited_place : Place
invited_place = (create anything anything 20 member 4 7 (asks_for (codes "c@x")) place).0

consent_lets_in_example :
    (new : Organization) × (accept (λ u. false) text_eq 25 7 3 (codes "c@x") invited_place.org
      ≡ saved new)
    × (is_in 3 new ≡ true)
unfolding requires_consent find_user find_by_email text_eq find_by_user already_invited
    find_invitation
consent_lets_in_example =
    consent_lets_in (λ u. false) text_eq anything anything 20 25 4 7 member (asks_for (codes "c@x"))
      place (user 3 (codes "c@x")) refl refl refl refl refl refl (ground arith)
