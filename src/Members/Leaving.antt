-- ===== src/Members/Leaving.antt =====
-- A user leaves an organization for good: what app/models/user.rb and
-- app/models/concerns/user/redaction.rb do with a membership.
use moneygun.Base.{
  ℕ, ◌≡◌, refl, Bool, true, false, not, ◌&&◌, ◌==◌, List, [], Option, none, some, if◌then◌else◌,
  arith, Bool-cases, inl, inr,
}
use moneygun.Members.{
  Membership, Invitation, Organization, Outcome, saved, active, find_by_user, replace, errors,
  save_if, update, change, deactivate, is_owner, sole_active_admin,
}
use moneygun.Members.Actions.{is_active}
use moneygun.Members.Owner.{IsLed, Saves, find-user, deactivate-IsLed}
use moneygun.Members.Gains.{is_in}
use moneygun.Members.Returns.{replaced_self}

-- `undeactivatable_reasons - [:owner]`, for an active membership.
unfoldable pub blocks : Organization → Option Membership → Bool
unfolding active is_owner sole_active_admin
blocks org none = false
blocks org (some m) = active m.deactivated_at && (not (is_owner org m) && sole_active_admin org m m)

pub blocks-invitations :
    (is : List Invitation) (org : Organization) (o : Option Membership)
    → blocks (record org { invitations = is }) o ≡ blocks org o
unfolding blocks is_owner sole_active_admin
blocks-invitations is org none = refl
blocks-invitations is org (some m) = refl

module _ (redacted : ℕ → Bool) where
  -- `update!(deactivated_at: ...)` of an active membership.
  unfoldable pub leave : ℕ → ℕ → Organization → Outcome
  unfolding is_active
  leave now u org =
      if is_active (find_by_user u org.memberships)
      then deactivate redacted now u org
      else saved org

  pub leave-IsLed : (now u : ℕ) (org : Organization) → IsLed org → Saves IsLed (leave now u org)
  unfolding leave
  leave-IsLed now u org l = elim (Bool-cases (is_active (find_by_user u org.memberships))) [
    | inl b ↦ rw b (deactivate-IsLed redacted now u org l)
    | inr b ↦ rw b l
  ]

  no_errors :
      (now : ℕ) (m : Membership) (org : Organization)
      → (m.user_id == org.owner_id) ≡ false
      → active m.deactivated_at ≡ true
      → blocks org (some m) ≡ false
      → errors redacted org m (record m { deactivated_at = some now }) ≡ []
  unfolding errors blocks
  no_errors now m org n a b = ground arith

  deactivated :
      (now u : ℕ) (m : Membership) (org : Organization)
      → find_by_user u org.memberships ≡ some m
      → (org.owner_id == u) ≡ false
      → active m.deactivated_at ≡ true
      → blocks org (some m) ≡ false
      → (new : Organization) × (deactivate redacted now u org ≡ saved new) × (is_in u new ≡ false)
  unfolding deactivate change update save_if is_active active
  deactivated now u m org f n a b =
      let gone : Membership = record m { deactivated_at = some now } in
      let same = find-user u org.memberships m f in
      (
        record org { memberships = replace gone org.memberships },
        rw (f, no_errors now m org (ground (arith, same)) a b) refl,
        rw (replaced_self redacted u gone m org.memberships same f) refl,
      )

  -- Without an obstacle a user leaves, and is no active member then.
  pub leave_done :
      (now u : ℕ) (o : Option Membership) (org : Organization)
      → find_by_user u org.memberships ≡ o
      → (org.owner_id == u) ≡ false
      → blocks org o ≡ false
      → (new : Organization) × (leave now u org ≡ saved new) × (is_in u new ≡ false)
  unfolding leave is_active
  leave_done now u none org f n b = (org, rw f refl, rw f refl)
  leave_done now u (some m) org f n b = elim (Bool-cases (active m.deactivated_at)) [
    | inl a ↦ rw (f, a) (deactivated now u m org f n a b)
    | inr a ↦ (org, rw (f, a) refl, rw (f, a) refl)
  ]
