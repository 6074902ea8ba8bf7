-- ===== src/Members/Inviting.antt =====
-- How invitations come about: the validations and callbacks of app/models/invitation.rb on creation, and
-- the actions create, resend and destroy of app/controllers/organizations/invitations_controller.rb.
-- The key of an invitation stands for its token.
use moneygun.Base.{
  ℕ, ◌+◌, Bool, true, false, not, ◌&&◌, ◌||◌, ◌==◌, List, [], ◌∷◌, ◌++◌, Text, text_eq, keep_if,
  ltb, leb, if◌then◌else◌,
}
use moneygun.Members.{Role, Membership, Invitation, Organization, active}
use moneygun.Members.Actions.{remove_invitation}

-- `expired`, for an address.
pub expired_for : ℕ → Text → Invitation → Bool
expired_for now e i = leb i.expires_at now && text_eq i.email e

-- `purge_expired_duplicates`.
unfoldable pub purge : ℕ → Text → List Invitation → List Invitation
unfolding expired_for
purge now e is = keep_if (λ i. not (expired_for now e i)) is

-- `pending`, for an address.
unfoldable pub already_invited : ℕ → Text → List Invitation → Bool
already_invited now e [] = false
already_invited now e (i ∷ is) =
    (ltb now i.expires_at && text_eq i.email e) || already_invited now e is

-- `resend!` of a pending invitation; 14 days are 1209600 seconds.
unfoldable pub extend : ℕ → ℕ → List Invitation → List Invitation
extend now k [] = []
extend now k (i ∷ is) =
    let rest = extend now k is in
    if (i.id == k) && ltb now i.expires_at
    then record i { expires_at = now + 1_209_600 } ∷ is
    else i ∷ rest

-- The addresses of the users, and their format.
module _ (email_of : ℕ → Text) (valid : Text → Bool) where
  unfoldable pub already_member : Text → List Membership → Bool
  unfolding active
  already_member e [] = false
  already_member e (m ∷ ms) =
      (active m.deactivated_at && text_eq (email_of m.user_id) e) || already_member e ms

  -- `save` of a new invitation, for an address that is normalized: whether it is saved. What was purged
  -- is back where it is not.
  unfoldable pub invite : ℕ → ℕ → Text → Role → Organization → Organization × Bool
  unfolding purge already_invited already_member
  invite now k e role org =
      let kept = purge now e org.invitations in
      if valid e && not (already_member e org.memberships || already_invited now e kept)
      then (
        record org {
          invitations =
              kept ++ record { id = k; email = e; role = role; expires_at = now + 1_209_600 } ∷ [];
        },
        true,
      )
      else (org, false)

  -- `resend`; `resendable` says whether the last one was sent two minutes ago.
  unfoldable pub resend : ℕ → Bool → ℕ → Organization → Organization
  unfolding extend
  resend now resendable k org =
      if resendable then record org { invitations = extend now k org.invitations } else org

pub data Event : Type 0 where
  invites : ℕ → ℕ → Text → Role → Event
  resends : ℕ → Bool → ℕ → Event
  ends : ℕ → ℕ → Event

module _ (email_of : ℕ → Text) (valid : Text → Bool) where
  unfoldable pub step : Event → Organization → Organization
  unfolding invite resend remove_invitation
  step (invites now k e role) org = (invite email_of valid now k e role org).0
  step (resends now resendable k) org = resend email_of valid now resendable k org
  step (ends now k) org = remove_invitation k org

  unfoldable pub run : List Event → Organization → Organization
  unfolding step
  run [] org = org
  run (e ∷ es) org = run es (step e org)
