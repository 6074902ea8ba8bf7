-- ===== src/Members.antt =====
-- The Ruby core of an organization: app/models/membership.rb, app/models/access_request.rb,
-- app/models/concerns/organization/transfer.rb and app/policies/membership_policy.rb; the child Actions
-- adds app/models/invitation.rb. Within an organization a membership is known by its user, since the
-- database keeps the pair unique; a user is a number. An operation that fails leaves the database as it
-- was. Times are seconds.
pub mod Actions
pub mod Owner
pub mod History
pub mod Transfers
pub mod Permissions
pub mod Uniqueness
pub mod Rules
pub mod Refinement
pub mod Simulation
pub mod Inviting
pub mod Pending
pub mod Gains
pub mod Leaving
pub mod Limits
pub mod Access
pub mod Returns
mod Examples
use moneygun.Base.{
  ℕ, Bool, true, false, not, ◌&&◌, ◌||◌, ◌==◌, List, [], ◌∷◌, ◌++◌, Option, none, some, Text,
  keep_if, ltb, if◌then◌else◌,
}

pub data Role : Type 0 where
  member admin viewer : Role

pub data Provenance : Type 0 where
  manual by_invitation by_sso by_scim : Provenance

pub record Membership : Type 0 where
  pub user_id : ℕ
  pub role : Role
  pub deactivated_at : Option ℕ
  pub provisioned_via : Provenance

pub record Invitation : Type 0 where
  pub id : ℕ
  pub email : Text
  pub role : Role
  pub expires_at : ℕ

pub record Organization : Type 0 where
  pub owner_id : ℕ
  pub memberships : List Membership
  pub invitations : List Invitation

-- The messages of the validations.
pub data Error : Type 0 where
  only_admin owner_demoted cannot_deactivate_owner cannot_deactivate_only_admin redacted_user :
      Error

pub data Failure : Type 0 where
  not_found no_candidate no_invitation expired email_mismatch already_active : Failure
  invalid : List Error → Failure

-- A failed operation is `refused`, whether it returns false or raises.
pub data Outcome : Type 0 where
  saved : Organization → Outcome
  refused : Failure → Outcome

unfoldable pub is_admin : Role → Bool
is_admin admin = true
is_admin _ = false

pub same_role : Role → Role → Bool
same_role member member = true
same_role admin admin = true
same_role viewer viewer = true
same_role _ _ = false

-- `active?`.
unfoldable pub active : Option ℕ → Bool
active none = true
active (some t) = false

pub same_time : Option ℕ → Option ℕ → Bool
same_time none none = true
same_time (some s) (some t) = s == t
same_time _ _ = false

-- `memberships.find_by(user: user)`.
unfoldable pub find_by_user : ℕ → List Membership → Option Membership
find_by_user u [] = none
find_by_user u (m ∷ ms) = if m.user_id == u then some m else find_by_user u ms

-- The row of a membership gets its new values.
pub replace : Membership → List Membership → List Membership
replace m [] = []
replace m (n ∷ ns) = let rest = replace m ns in if n.user_id == m.user_id then m ∷ ns else n ∷ rest

-- `memberships.active.where(role: "admin").where.not(id: id).exists?`.
unfoldable pub other_active_admin : ℕ → List Membership → Bool
unfolding is_admin active
other_active_admin u [] = false
other_active_admin u (m ∷ ms) =
    (active m.deactivated_at && (is_admin m.role && not (m.user_id == u)))
    || other_active_admin u ms

pub is_owner : Organization → Membership → Bool
is_owner org m = m.user_id == org.owner_id

-- `sole_active_admin?`, for a membership that was `was` when it was read.
pub sole_active_admin : Organization → Membership → Membership → Bool
unfolding is_admin
sole_active_admin org was m =
    (is_admin m.role || is_admin was.role) && not (other_active_admin m.user_id org.memberships)

add_if : Bool → Error → List Error
add_if true e = e ∷ []
add_if false e = []

-- `role_changed? && role_was == "admin"`.
leaves_admin : Membership → Membership → Bool
unfolding is_admin same_role
leaves_admin was m = not (same_role was.role m.role) && is_admin was.role

pub deactivating : Membership → Membership → Bool
unfolding active same_time
deactivating was m =
    not (same_time was.deactivated_at m.deactivated_at) && not (active m.deactivated_at)

pub reactivating : Membership → Membership → Bool
unfolding active same_time
reactivating was m = not (same_time was.deactivated_at m.deactivated_at) && active m.deactivated_at

-- `undeactivatable_reasons`, as messages.
unfoldable pub undeactivatable_reasons : Organization → Membership → Membership → List Error
unfolding is_owner sole_active_admin add_if
undeactivatable_reasons org was m =
    if is_owner org m
    then cannot_deactivate_owner ∷ []
    else add_if (sole_active_admin org was m) cannot_deactivate_only_admin

when_deactivating : Bool → List Error → List Error
when_deactivating true es = es
when_deactivating false es = []

-- Whether a user is redacted is read from the table of users.
module _ (redacted : ℕ → Bool) where
  -- The validations of an update, in their order.
  unfoldable pub errors : Organization → Membership → Membership → List Error
  unfolding add_if leaves_admin sole_active_admin is_owner deactivating reactivating
      undeactivatable_reasons when_deactivating
  errors org was m =
      add_if (leaves_admin was m && sole_active_admin org was m) only_admin
      ++ (add_if (leaves_admin was m && is_owner org m) owner_demoted
          ++ (when_deactivating (deactivating was m) (undeactivatable_reasons org was m)
              ++ add_if (reactivating was m && redacted m.user_id) redacted_user))

  save_if : List Error → Organization → Membership → Outcome
  unfolding replace
  save_if [] org m = saved (record org { memberships = replace m org.memberships })
  save_if (e ∷ es) org m = refused (invalid (e ∷ es))

  -- `membership.update(...)`, from the row `was` to the row `m`.
  unfoldable pub update : Organization → Membership → Membership → Outcome
  unfolding save_if errors
  update org was m = save_if (errors org was m) org m

  -- Look a membership up and change it.
  pub change : (Membership → Membership) → Failure → Option Membership → Organization → Outcome
  unfolding update
  change f failure none org = refused failure
  change f failure (some m) org = update org m (f m)

  pub change_role : ℕ → Role → Organization → Outcome
  unfolding change
  change_role u role org =
      change (λ m. record m { role = role }) not_found (find_by_user u org.memberships) org

  pub deactivate : ℕ → ℕ → Organization → Outcome
  unfolding change
  deactivate now u org =
      change (λ m. record m { deactivated_at = some now }) not_found
        (find_by_user u org.memberships) org

  pub reactivate : ℕ → Organization → Outcome
  unfolding change
  reactivate u org =
      change (λ m. record m { deactivated_at = none }) not_found (find_by_user u org.memberships)
        org

  -- The query of `ownership_transfer_candidate_memberships`, on what `find_by` finds.
  candidate : ℕ → Option Membership → Option Membership
  unfolding active
  candidate owner none = none
  candidate owner (some m) =
      if active m.deactivated_at && not (m.user_id == owner) then some m else none

  hand_over : ℕ → Outcome → Outcome
  hand_over u (saved org) = saved (record org { owner_id = u })
  hand_over u (refused f) = refused f

  pub transfer_ownership : ℕ → Organization → Outcome
  unfolding candidate hand_over change
  transfer_ownership u org = hand_over u (
      change (λ m. record m { role = admin }) no_candidate
        (candidate org.owner_id (find_by_user u org.memberships)) org)

  -- An existing membership is changed; a missing one is created.
  unfoldable pub join :
      (Membership → Membership) → Membership → Option Membership → Organization → Outcome
  unfolding update
  join f new none org = saved (record org { memberships = org.memberships ++ new ∷ [] })
  join f new (some m) org = update org m (f m)

  -- `approve!` of an access request of a user, on the memberships. The column `role` has the default
  -- "member" and `provisioned_via` the default "invitation".
  unfoldable pub approve : ℕ → Organization → Outcome
  unfolding join
  approve u org =
      join (λ m. record m { deactivated_at = none })
        (record {
          user_id = u;
          role = member;
          deactivated_at = none;
          provisioned_via = by_invitation;
        })
        (find_by_user u org.memberships) org

-- MembershipPolicy, for the current membership of the user.
pub may_update : Membership → Organization → Membership → Bool
unfolding is_admin is_owner
may_update current org m = is_admin current.role && not (is_owner org m)

pub may_reactivate : (ℕ → Bool) → Membership → Membership → Bool
unfolding is_admin active
may_reactivate redacted current m =
    is_admin current.role && (not (active m.deactivated_at) && not (redacted m.user_id))

pub may_destroy : Membership → Organization → Membership → Bool
unfolding is_admin active is_owner
may_destroy current org m =
    if is_owner org m
    then false
    else if m.user_id == current.user_id
    then true
    else is_admin current.role && active m.deactivated_at
