-- ===== src/Members/Limits.antt =====
-- The limit of invitations in an hour: `enforce_rate_limit` before the action create of
-- app/controllers/organizations/invitations_controller.rb, and the action destroy, which revokes one.
-- `created_at` is the column of the invitations, by their keys; times are seconds.
pub mod Rounds
pub mod Hourly
mod Examples
use moneygun.Base.{
  ℕ, suc, ◌+◌, Bool, true, false, ◌==◌, List, [], ◌∷◌, Text, ltb, leb, if◌then◌else◌,
}
use moneygun.Members.{Role, Invitation, Organization}
use moneygun.Members.Actions.{revoke, after}
use moneygun.Members.Inviting.{invite}

-- `delivered` counts the calls of `deliver`.
pub record Desk : Type 0 where
  pub org : Organization
  pub created_at : ℕ → ℕ
  pub delivered : ℕ

-- `where(created_at: 1.hour.ago..).count`.
unfoldable pub recent : ℕ → (ℕ → ℕ) → List Invitation → ℕ
recent now created_at [] = 0
recent now created_at (i ∷ is) =
    let rest = recent now created_at is in
    if leb now (created_at i.id + 3600) then suc rest else rest

abbrev pub recent_at : ℕ → Desk → ℕ
recent_at now d = recent now d.created_at d.org.invitations

-- The column with the row of a new invitation.
abbrev pub stamped : ℕ → ℕ → (ℕ → ℕ) → ℕ → ℕ
stamped now k created_at j = if j == k then now else created_at j

-- What `create` does after `save`.
unfoldable pub after_save : ℕ → ℕ → Organization × Bool → Desk → Desk
after_save now k (org, true) d = record {
  org = org;
  created_at = stamped now k d.created_at;
  delivered = suc d.delivered;
}
after_save now k (org, false) d = d

pub data Event : Type 0 where
  creates : ℕ → ℕ → Text → Role → Event
  revokes : ℕ → ℕ → Event

module _ (email_of : ℕ → Text) (valid : Text → Bool) where
  -- `create` behind `enforce_rate_limit`.
  unfoldable pub create : ℕ → ℕ → Text → Role → Desk → Desk
  unfolding recent after_save invite
  create now k e role d =
      if ltb (recent now d.created_at d.org.invitations) 30
      then after_save now k (invite email_of valid now k e role d.org) d
      else d

module _ (redacted : ℕ → Bool) (same_email : Text → Text → Bool) where
  -- `destroy`.
  unfoldable pub destroy : ℕ → ℕ → Desk → Desk
  unfolding revoke after
  destroy now k d = record d { org = after d.org (revoke redacted same_email now k d.org) }

  module _ (email_of : ℕ → Text) (valid : Text → Bool) where
    unfoldable pub step : Event → Desk → Desk
    unfolding create destroy
    step (creates now k e role) d = create email_of valid now k e role d
    step (revokes now k) d = destroy now k d

    unfoldable pub run : List Event → Desk → Desk
    unfolding step
    run [] d = d
    run (e ∷ es) d = run es (step e d)
