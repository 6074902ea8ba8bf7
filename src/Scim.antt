-- ===== src/Scim.antt =====
-- Provisioning by an identity provider: app/controllers/scim/users_controller.rb with the setters of
-- app/models/concerns/membership/scim_provisionable.rb, on the users and the organization of a
-- connection. The package scimitar finds the record, calls the setters for what a request names, and
-- saves. External numbers, display names, mails and logs are left out. Times are seconds.
pub mod Consent
pub mod Leading
pub mod Inviting
pub mod Returning
mod Examples
use moneygun.Base.{
  ℕ, ◌≡◌, Bool, true, false, not, ◌&&◌, ◌||◌, ◌==◌, List, [], ◌∷◌, ◌++◌, Option, none, some, Text,
  text_eq, if◌then◌else◌,
}
use moneygun.Members.{
  Role, Membership, Organization, Outcome, saved, refused, Error, by_scim, active, find_by_user,
  update, undeactivatable_reasons,
}
use moneygun.Members.Inviting.{already_invited, invite}
use moneygun.SignIn.{User, find_user, find_by_email}
use moneygun.SignIn.Steps.{new_user}
use moneygun.Erasure.{redacted_in}
use moneygun.Sso.Resolution.{Place}

-- What a request says: the address, stripped and in lower case, and whether the user is active.
pub record Resource : Type 0 where
  pub user_name : Text
  pub active : Option Bool

pub data Answer : Type 0 where
  done : Membership → Answer
  needs_consent already_provisioned invalid missing : Answer

address_is : Text → Option User → Bool
address_is e none = false
address_is e (some u) = text_eq u.email e

-- `memberships.joins(:user).find_by(users: { email: email })`.
unfoldable pub member_with : Text → List User → List Membership → Option Membership
unfolding address_is
member_with e us [] = none
member_with e us (m ∷ ms) =
    let rest = member_with e us ms in if address_is e (find_user m.user_id us) then some m else rest

is_some : {A : Type 0} → Option A → Bool
is_some none = false
is_some (some x) = true

address_of : Option User → Text
address_of none = []
address_of (some u) = u.email

is_blank : Text → Bool
is_blank [] = true
is_blank (c ∷ cs) = false

-- `scim_active=`.
pub set_active : ℕ → Option Bool → Membership → Membership
unfolding active
set_active now none m = m
set_active now (some true) m = record m { deactivated_at = none }
set_active now (some false) m =
    if active m.deactivated_at then record m { deactivated_at = some now } else m

-- `save!` of a membership that is there.
pub saved_as : Membership → Outcome → Place → Place × Answer
saved_as m (saved org) p = (record p { org = org }, done m)
saved_as m (refused f) p = (p, invalid)

-- `deactivation_must_be_permitted` of a new membership.
new_errors : Organization → Membership → List Error
unfolding active undeactivatable_reasons
new_errors org m = if active m.deactivated_at then [] else undeactivatable_reasons org m m

-- The row of a new membership.
pub row : Role → ℕ → Membership
row role i = record { user_id = i; role = role; deactivated_at = none; provisioned_via = by_scim }

append_row : List Error → List User → Membership → Place → Place × Answer
append_row [] us m p = (
  record { users = us; org = record p.org { memberships = p.org.memberships ++ m ∷ [] } },
  done m,
)
append_row (e ∷ es) us m p = (p, invalid)

-- The uniqueness of a user in an organization, and the other validations.
add_row : Option Membership → List User → Membership → Place → Place × Answer
unfolding append_row new_errors
add_row (some n) us m p = (p, invalid)
add_row none us m p = append_row (new_errors p.org m) us m p

-- `provisioned_via` and `deactivated_at` of `reactivate`.
abbrev pub returned : Membership → Membership
returned m = record m { deactivated_at = none; provisioned_via = by_scim }

-- `reactivate`.
pub bring_back : Membership → Place → Place × Answer
unfolding saved_as update redacted_in
bring_back m p = saved_as (returned m) (update (redacted_in p.users) p.org m (returned m)) p

-- Whether `require_consent_for_existing_account!` raises: for a user without a membership.
pub requires_consent : Resource → Place → Bool
unfolding is_blank is_some find_by_email member_with
requires_consent r p =
    not (is_blank r.user_name)
    && (is_some (find_by_email r.user_name p.users)
        && not (is_some (member_with r.user_name p.users p.org.memberships)))

-- The validations of a new user, and the format of addresses.
module _ (acceptable : Text → Bool) (valid : Text → Bool) where
  -- `scim_username=` and `save!` of a new membership: the user with the address, or a new one.
  provision_for : ℕ → Role → ℕ → Resource → Option User → Place → Place × Answer
  unfolding add_row set_active row new_user find_by_user
  provision_for now role i r (some u) p =
      add_row (find_by_user u.id p.org.memberships) p.users
        (set_active now r.active (row role u.id)) p
  provision_for now role i r none p =
      if acceptable r.user_name
      then add_row (find_by_user i p.org.memberships) (p.users ++ new_user i r.user_name ∷ [])
          (set_active now r.active (row role i)) p
      else (p, invalid)

  -- `provision`.
  pub provision : ℕ → Role → ℕ → Resource → Place → Place × Answer
  unfolding provision_for is_blank find_by_email
  provision now role i r p =
      if is_blank r.user_name
      then (p, invalid)
      else provision_for now role i r (find_by_email r.user_name p.users) p

  -- `upsert_from_scim`, for the membership that there is.
  upsert : ℕ → Role → ℕ → Resource → Option Membership → Place → Place × Answer
  unfolding provision bring_back
  upsert now role i r none p = provision now role i r p
  upsert now role i r (some m) p =
      if active m.deactivated_at then (p, already_provisioned) else bring_back m p

  -- The invitation that `require_consent_for_existing_account!` leaves, with the number `k`.
  ask_consent : ℕ → Role → ℕ → Text → Place → Place
  unfolding already_invited invite address_of find_user
  ask_consent now role k e p = if already_invited now e p.org.invitations then p else record p {
    org = (invite (λ u. address_of (find_user u p.users)) valid now k e role p.org).0;
  }

  -- `create`; `i` and `k` are the next numbers of a user and of an invitation.
  pub create : ℕ → Role → ℕ → ℕ → Resource → Place → Place × Answer
  unfolding upsert ask_consent requires_consent member_with
  create now role i k r p =
      if requires_consent r p
      then (ask_consent now role k r.user_name p, needs_consent)
      else upsert now role i r (member_with r.user_name p.users p.org.memberships) p

deactivate_found : ℕ → Option Membership → Place → Place × Answer
unfolding saved_as update active redacted_in
deactivate_found now none p = (p, missing)
deactivate_found now (some m) p =
    if active m.deactivated_at
    then saved_as (record m { deactivated_at = some now })
        (update (redacted_in p.users) p.org m (record m { deactivated_at = some now })) p
    else (p, done m)

-- `destroy`.
pub destroy : ℕ → ℕ → Place → Place × Answer
unfolding deactivate_found find_by_user
destroy now u p = deactivate_found now (find_by_user u p.org.memberships) p

replace_found : ℕ → Option Bool → Option Membership → Place → Place × Answer
unfolding saved_as update set_active redacted_in
replace_found now a none p = (p, missing)
replace_found now a (some m) p =
    saved_as (set_active now a m) (update (redacted_in p.users) p.org m (set_active now a m)) p

-- A user is replaced or patched.
pub replace : ℕ → ℕ → Option Bool → Place → Place × Answer
unfolding replace_found find_by_user
replace now u a p = replace_found now a (find_by_user u p.org.memberships) p

pub data Event : Type 0 where
  creates : ℕ → ℕ → ℕ → Resource → Event
  destroys : ℕ → ℕ → Event
  replaces : ℕ → ℕ → Option Bool → Event

-- The requests of a connection whose memberships get the role.
module _ (acceptable : Text → Bool) (valid : Text → Bool) (role : Role) where
  pub step : Event → Place → Place
  unfolding create destroy replace
  step (creates now i k r) p = (create acceptable valid now role i k r p).0
  step (destroys now u) p = (destroy now u p).0
  step (replaces now u a) p = (replace now u a p).0

  pub run : List Event → Place → Place
  unfolding step
  run [] p = p
  run (e ∷ es) p = run es (step e p)
