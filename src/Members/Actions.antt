-- ===== src/Members/Actions.antt =====
-- The transitions of app/models/invitation.rb, and any sequence of the operations on an organization.
use moneygun.Base.{
  ℕ, Bool, false, not, ◌==◌, List, [], ◌∷◌, Option, none, some, Text, keep_if, ltb, if◌then◌else◌,
}
use moneygun.Members.{
  Role, Membership, Invitation, Organization, Outcome, saved, refused, no_invitation, expired,
  email_mismatch, already_active, by_invitation, active, find_by_user, join, change_role,
  deactivate, reactivate, transfer_ownership, approve,
}

-- `with_lock` of an invitation that is gone raises.
unfoldable pub find_invitation : ℕ → List Invitation → Option Invitation
find_invitation k [] = none
find_invitation k (i ∷ rest) = if i.id == k then some i else find_invitation k rest

-- `destroy!` of an invitation.
unfoldable pub remove_invitation : ℕ → Organization → Organization
remove_invitation k org = record org {
  invitations = keep_if (λ i. not (i.id == k)) org.invitations;
}

unfoldable pub is_active : Option Membership → Bool
unfolding active
is_active none = false
is_active (some m) = active m.deactivated_at

-- `casecmp(...).zero?` on emails is Ruby's.
module _ (redacted : ℕ → Bool) (same_email : Text → Text → Bool) where
  -- `accept!` behind the checks of the invitation, for the membership that the user has.
  unfoldable pub accept_as : Invitation → ℕ → Option Membership → Organization → Outcome
  unfolding is_active join
  accept_as i u o org =
      if is_active o
      then refused already_active
      else join redacted
          (λ m. record m { role = i.role; deactivated_at = none; provisioned_via = by_invitation })
          (record {
            user_id = u;
            role = i.role;
            deactivated_at = none;
            provisioned_via = by_invitation;
          })
          o (remove_invitation i.id org)

  -- `expires_at.past?`, and whether the invitation is meant for the user.
  unfoldable pub with_invitation :
      ℕ → Option Text → (Invitation → Outcome) → Option Invitation → Outcome
  with_invitation now email k none = refused no_invitation
  with_invitation now none k (some i) = if ltb i.expires_at now then refused expired else k i
  with_invitation now (some email) k (some i) =
      if ltb i.expires_at now
      then refused expired
      else if same_email i.email email
      then k i
      else refused email_mismatch

  unfoldable pub accept : ℕ → ℕ → ℕ → Text → Organization → Outcome
  unfolding with_invitation find_invitation accept_as
  accept now id u email org =
      with_invitation now (some email) (λ i. accept_as i u (find_by_user u org.memberships) org)
        (find_invitation id org.invitations)

  unfoldable pub decline : ℕ → ℕ → Text → Organization → Outcome
  unfolding with_invitation find_invitation
  decline now id email org =
      with_invitation now (some email) (λ i. saved (remove_invitation i.id org))
        (find_invitation id org.invitations)

  unfoldable pub revoke : ℕ → ℕ → Organization → Outcome
  unfolding with_invitation find_invitation
  revoke now id org =
      with_invitation now none (λ i. saved (remove_invitation i.id org))
        (find_invitation id org.invitations)

pub data Action : Type 0 where
  changes_role : ℕ → Role → Action
  deactivates : ℕ → ℕ → Action
  reactivates transfers approves : ℕ → Action
  accepts : ℕ → ℕ → ℕ → Text → Action
  declines : ℕ → ℕ → Text → Action
  revokes : ℕ → ℕ → Action

module _ (redacted : ℕ → Bool) (same_email : Text → Text → Bool) where
  unfoldable pub apply : Action → Organization → Outcome
  apply (changes_role u role) org = change_role redacted u role org
  apply (deactivates now u) org = deactivate redacted now u org
  apply (reactivates u) org = reactivate redacted u org
  apply (transfers u) org = transfer_ownership redacted u org
  apply (approves u) org = approve redacted u org
  apply (accepts now id u email) org = accept redacted same_email now id u email org
  apply (declines now id email) org = decline redacted same_email now id email org
  apply (revokes now id) org = revoke redacted same_email now id org

unfoldable pub after : Organization → Outcome → Organization
after org (saved new) = new
after org (refused f) = org

module _ (redacted : ℕ → Bool) (same_email : Text → Text → Bool) where
  -- Actions in turn, with or without success.
  unfoldable pub run : List Action → Organization → Organization
  unfolding apply after
  run [] org = org
  run (a ∷ later) org = run later (after org (apply redacted same_email a org))
