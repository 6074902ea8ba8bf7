-- ===== src/Sso/Resolution.antt =====
-- Whom a sign-in through an identity provider lets in: `resolve_sign_in` of app/models/sso_connection.rb.
use moneygun.Base.{ℕ, Bool, List, [], ◌∷◌, ◌++◌, Option, none, some, Text, if◌then◌else◌}
use moneygun.Members.{
  Role, Membership, Organization, Outcome, saved, refused, by_sso, active, find_by_user, update,
}
use moneygun.SignIn.{User, find_by_email, can_authenticate}
use moneygun.SignIn.Steps.{new_user}
use moneygun.Sso.{Domain, asserts_email}

pub data Reason : Type 0 where
  domain_not_asserted user_cannot_authenticate jit_provisioning_off account_not_affiliated
        identity_rejected :
      Reason

pub data Answer : Type 0 where
  granted : Membership → Answer
  denied : Reason → Answer

-- The users and the organization of a connection.
pub record Place : Type 0 where
  pub users : List User
  pub org : Organization

-- What a connection is set to.
pub record Settings : Type 0 where
  pub jit_provisioning : Bool
  pub default_membership_role : Role

unfoldable pub reactivated : Membership → Outcome → Place → Place × Answer
reactivated m (saved org) p = (record p { org = org }, granted m)
reactivated m (refused f) p = (p, denied identity_rejected)

abbrev pub by_provider : Membership → Membership
by_provider m = record m { deactivated_at = none; provisioned_via = by_sso }

-- Which users are redacted, and the validations of a new user.
module _ (redacted : ℕ → Bool) (acceptable : Text → Bool) where
  -- `provision`, for a user with the number `i`.
  unfoldable pub provision : Role → ℕ → Text → Place → Place × Answer
  unfolding new_user
  provision role i email p =
      if acceptable email
      then (
        record {
          users = p.users ++ new_user i email ∷ [];
          org = record p.org {
            memberships =
                p.org.memberships
                ++ record {
                  user_id = i;
                  role = role;
                  deactivated_at = none;
                  provisioned_via = by_sso;
                }
                  ∷ [];
          };
        },
        granted
            (record { user_id = i; role = role; deactivated_at = none; provisioned_via = by_sso }),
      )
      else (p, denied identity_rejected)

  unfoldable pub for_membership : Settings → Option Membership → Place → Place × Answer
  unfolding reactivated
  for_membership s none p =
      (p, denied (if s.jit_provisioning then account_not_affiliated else jit_provisioning_off))
  for_membership s (some m) p =
      if active m.deactivated_at
      then (p, granted m)
      else if s.jit_provisioning
      then reactivated (by_provider m) (update redacted p.org m (by_provider m)) p
      else (p, denied jit_provisioning_off)

  unfoldable pub for_user : Settings → ℕ → Text → Option User → Place → Place × Answer
  unfolding for_membership provision
  for_user s i email none p =
      if s.jit_provisioning
      then provision s.default_membership_role i email p
      else (p, denied jit_provisioning_off)
  for_user s i email (some u) p =
      if can_authenticate u
      then for_membership s (find_by_user u.id p.org.memberships) p
      else (p, denied user_cannot_authenticate)

  -- `resolve_sign_in`, for an address that is stripped and in lower case.
  unfoldable pub resolve_sign_in :
      (Text → Text) → ℕ → Settings → ℕ → Text → List Domain → Place → Place × Answer
  unfolding asserts_email for_user
  resolve_sign_in clean c s i email ds p =
      if asserts_email clean c email ds
      then for_user s i email (find_by_email email p.users) p
      else (p, denied domain_not_asserted)
