-- ===== src/Members/Rules.antt =====
-- What an organization promises, without its validations, its rows and their order: who the owner is,
-- what membership each user has, and which invitations are open. An update is accepted exactly if it
-- leaves the owner an active admin, and brings no redacted user back.
use moneygun.Base.{
  ℕ, Bool, not, ◌&&◌, ◌==◌, List, [], ◌∷◌, Option, none, some, Text, keep_if, ltb, if◌then◌else◌,
}
use moneygun.Members.{
  Role, admin, member, Membership, Invitation, by_invitation, is_admin, active, reactivating,
}
use moneygun.Members.Actions.{
  Action, changes_role, deactivates, reactivates, transfers, approves, accepts, declines, revokes,
  find_invitation,
}

pub record Company : Type 0 where
  pub owner : ℕ
  pub membership : ℕ → Option Membership
  pub invitations : List Invitation

-- The function with a new value for one user.
abbrev pub set : ℕ → Membership → (ℕ → Option Membership) → ℕ → Option Membership
set u m f v = if v == u then some m else f v

unfoldable pub hand_to : Option Membership → Company → Company
hand_to none c = c
hand_to (some m) c =
    if active m.deactivated_at && not (m.user_id == c.owner)
    then record c {
      owner = m.user_id;
      membership = set m.user_id (record m { role = admin }) c.membership;
    }
    else c

unfoldable pub closes : ℕ → Company → Company
closes k c = record c { invitations = keep_if (λ i. not (i.id == k)) c.invitations }

abbrev pub comes_in : Invitation → Membership → Membership
comes_in i m = record m { role = i.role; deactivated_at = none; provisioned_via = by_invitation }

abbrev pub newcomer : ℕ → Role → Membership
newcomer u r = record {
  user_id = u;
  role = r;
  deactivated_at = none;
  provisioned_via = by_invitation;
}

module _ (redacted : ℕ → Bool) (same_email : Text → Text → Bool) where
  unfoldable pub allowed : ℕ → Membership → Membership → Bool
  allowed owner was m =
      if was.user_id == owner
      then is_admin m.role && active m.deactivated_at
      else not (reactivating was m && redacted m.user_id)

  -- A change of the membership that a user has.
  unfoldable pub amend : (Membership → Membership) → Option Membership → Company → Company
  unfolding allowed
  amend f none c = c
  amend f (some m) c =
      if allowed c.owner m (f m)
      then record c { membership = set m.user_id (f m) c.membership }
      else c

  unfoldable pub enter :
      (Membership → Membership) → Membership → Option Membership → Company → Company
  unfolding amend
  enter f new none c = record c { membership = set new.user_id new c.membership }
  enter f new (some m) c = amend f (some m) c

  -- What an invitation leads to: nothing, unless it is open and meant for the user.
  unfoldable pub with_open :
      ℕ → Option Text → (Invitation → Company) → Option Invitation → Company → Company
  with_open now email k none c = c
  with_open now none k (some i) c = if ltb i.expires_at now then c else k i
  with_open now (some email) k (some i) c =
      if ltb i.expires_at now then c else if same_email i.email email then k i else c

  -- Whoever is a member already, or may not come back, leaves the invitation open.
  unfoldable pub comes : Invitation → ℕ → Option Membership → Company → Company
  unfolding allowed closes
  comes i u none c = closes i.id (record c { membership = set u (newcomer u i.role) c.membership })
  comes i u (some m) c =
      if active m.deactivated_at
      then c
      else if allowed c.owner m (comes_in i m)
      then closes i.id (record c { membership = set m.user_id (comes_in i m) c.membership })
      else c

  unfoldable pub obeys : Action → Company → Company
  unfolding amend enter hand_to with_open comes closes
  obeys (changes_role u r) c = amend (λ m. record m { role = r }) (c.membership u) c
  obeys (deactivates now u) c =
      amend (λ m. record m { deactivated_at = some now }) (c.membership u) c
  obeys (reactivates u) c = amend (λ m. record m { deactivated_at = none }) (c.membership u) c
  obeys (transfers u) c = hand_to (c.membership u) c
  obeys (approves u) c =
      enter (λ m. record m { deactivated_at = none }) (newcomer u member) (c.membership u) c
  obeys (accepts now k u e) c =
      with_open now (some e) (λ i. comes i u (c.membership u) c) (find_invitation k c.invitations) c
  obeys (declines now k e) c =
      with_open now (some e) (λ i. closes i.id c) (find_invitation k c.invitations) c
  obeys (revokes now k) c =
      with_open now none (λ i. closes i.id c) (find_invitation k c.invitations) c

  unfoldable pub obeys_all : List Action → Company → Company
  unfolding obeys
  obeys_all [] c = c
  obeys_all (a ∷ later) c = obeys_all later (obeys a c)
