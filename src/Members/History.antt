-- ===== src/Members/History.antt =====
-- The life of an organization.
use moneygun.Base.{
  Bool-cases, inl, inr, ℕ, refl, Bool, List, [], ◌∷◌, Option, none, some, Text, arith,
}
use moneygun.Members.{Organization, Outcome, saved, refused, find_by_user, Invitation}
use moneygun.Members.Actions.{
  Action, changes_role, deactivates, reactivates, transfers, approves, accepts, declines, revokes,
  accept, decline, revoke, accept_as, is_active, with_invitation, apply, after, run,
  find_invitation, remove_invitation,
}
use moneygun.Members.Owner.{
  IsLed, Saves, change_role-IsLed, deactivate-IsLed, reactivate-IsLed, approve-IsLed, join-IsLed,
  found_by_user,
}
use moneygun.Members.Transfers.{transfer-IsLed}

module _ (redacted : ℕ → Bool) (same_email : Text → Text → Bool) where
  pub with_invitation-Saves :
      (P : Organization → Type 0) (now : ℕ) (e : Option Text) (k : Invitation → Outcome)
      (o : Option Invitation)
      → ((i : Invitation) → Saves P (k i))
      → Saves P (with_invitation redacted same_email now e k o)
  unfolding with_invitation
  with_invitation-Saves P now e k none h = tt
  with_invitation-Saves P now none k (some i) h = ground (arith, h i)
  with_invitation-Saves P now (some e) k (some i) h = ground (arith, h i)

  accept_as-IsLed :
      (i : Invitation) (u : ℕ) (org : Organization)
      → IsLed org
      → Saves IsLed (accept_as redacted same_email i u (find_by_user u org.memberships) org)
  unfolding accept_as remove_invitation
  accept_as-IsLed i u org l = elim (Bool-cases (is_active (find_by_user u org.memberships))) [
    | inl e ↦ rw e tt
    | inr e ↦ rw e (
        join-IsLed redacted _ _ (find_by_user u org.memberships) (remove_invitation i.id org)
          (λ m. refl) (found_by_user redacted u org.memberships) l)
  ]

  pub apply-IsLed :
      (a : Action) (org : Organization) → IsLed org → Saves IsLed (apply redacted same_email a org)
  unfolding apply accept decline revoke remove_invitation
  apply-IsLed (changes_role u role) org l = change_role-IsLed redacted u role org l
  apply-IsLed (deactivates now u) org l = deactivate-IsLed redacted now u org l
  apply-IsLed (reactivates u) org l = reactivate-IsLed redacted u org l
  apply-IsLed (transfers u) org l = transfer-IsLed redacted u org l
  apply-IsLed (approves u) org l = approve-IsLed redacted u org l
  apply-IsLed (accepts now id u e) org l =
      with_invitation-Saves IsLed now (some e) _ (find_invitation id org.invitations)
        (λ i. accept_as-IsLed i u org l)
  apply-IsLed (declines now id e) org l =
      with_invitation-Saves IsLed now (some e) (λ i. saved (remove_invitation i.id org))
        (find_invitation id org.invitations) (λ i. l)
  apply-IsLed (revokes now id) org l =
      with_invitation-Saves IsLed now none (λ i. saved (remove_invitation i.id org))
        (find_invitation id org.invitations) (λ i. l)

  pub after-IsLed :
      (org : Organization) (o : Outcome) → IsLed org → Saves IsLed o → IsLed (after org o)
  unfolding after
  after-IsLed org (saved new) l s = s
  after-IsLed org (refused f) l s = l

  -- Whatever is done to an organization whose owner is an active admin, its owner, who may be another
  -- one then, is an active admin.
  pub run-IsLed :
      (actions : List Action) (org : Organization)
      → IsLed org
      → IsLed (run redacted same_email actions org)
  unfolding run
  run-IsLed [] org l = l
  run-IsLed (a ∷ later) org l =
      run-IsLed later (after org (apply redacted same_email a org))
        (after-IsLed org (apply redacted same_email a org) l (apply-IsLed a org l))
