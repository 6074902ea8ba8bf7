-- ===== src/Members/Access.antt =====
-- Who gets in: the operations that make an active member of a user who is none.
use moneygun.Base.{
  ℕ, ◌≡◌, refl, Bool, true, false, Option, none, some, Text, ltb, Bool-cases, inl, inr,
}
use moneygun.Members.{Invitation, Organization, Outcome, saved, find_by_user}
use moneygun.Members.Actions.{
  Action, changes_role, deactivates, reactivates, transfers, approves, accepts, declines, revokes,
  after, find_invitation, remove_invitation, with_invitation, accept, decline, revoke, apply,
}
use moneygun.Members.Gains.{
  is_in, change_role-gains, deactivate-gains, reactivate-gains, transfer-gains, accept_as-gains,
  approve-gains,
}

module _ (redacted : ℕ → Bool) (same_email : Text → Text → Bool) where
  -- An invitation that is open and meant for the user.
  abbrev pub Invited : ℕ → ℕ → Text → Organization → Type 0
  Invited now k email org =
      (i : Invitation) × (find_invitation k org.invitations ≡ some i)
      × (ltb i.expires_at now ≡ false)
      × (same_email i.email email ≡ true)

  -- The operations that let a user in.
  abbrev pub Admits : Action → ℕ → Organization → Type 0
  Admits (reactivates v) u org = v ≡ u
  Admits (approves v) u org = v ≡ u
  Admits (accepts now k v email) u org = (v ≡ u) × Invited now k email org
  Admits _ u org = ⊥

  with_invitation-gains :
      (now : ℕ) (email : Text) (k : Invitation → Outcome) (o : Option Invitation)
      (org : Organization) (u : ℕ)
      → is_in u org ≡ false
      → is_in u (after org (with_invitation redacted same_email now (some email) k o)) ≡ true
      → (i : Invitation) × (o ≡ some i)
        × (ltb i.expires_at now ≡ false)
        × (same_email i.email email ≡ true)
        × (is_in u (after org (k i)) ≡ true)
  unfolding with_invitation
  with_invitation-gains now email k none org u h e = absurd (unfold after in cc (h, e))
  with_invitation-gains now email k (some i) org u h e = elim (Bool-cases (ltb i.expires_at now)) [
    | inl b ↦ absurd (unfold after in cc (h, rw b at e))
    | inr b ↦ elim (Bool-cases (same_email i.email email)) [
      | inl c ↦ (i, refl, b, c, rw (b, c) at e)
      | inr c ↦ absurd (unfold after in cc (h, rw (b, c) at e))
    ]
  ]

  removed_invitation-gains :
      (k u : ℕ) (org : Organization)
      → is_in u org ≡ false
      → is_in u (after org (saved (remove_invitation k org))) ≡ true
      → ⊥
  unfolding after remove_invitation
  removed_invitation-gains k u org h e = cc

  revoked-gains :
      (now u : ℕ) (o : Option Invitation) (org : Organization)
      → is_in u org ≡ false
      → is_in u (
          after org (
            with_invitation redacted same_email now none
              (λ i. saved (remove_invitation i.id org))
              o))
        ≡ true
      → ⊥
  unfolding with_invitation
  revoked-gains now u none org h e = unfold after in cc (h, e)
  revoked-gains now u (some i) org h e = elim (Bool-cases (ltb i.expires_at now)) [
    | inl b ↦ unfold after in cc (h, rw b at e)
    | inr b ↦ removed_invitation-gains i.id u org h (rw b at e)
  ]

  -- Whoever becomes an active member by an operation was brought back or let in by an admin, or
  -- accepted an open invitation to their own address.
  pub apply-gains :
      (a : Action) (org : Organization) (u : ℕ)
      → is_in u org ≡ false
      → is_in u (after org (apply redacted same_email a org)) ≡ true
      → Admits a u org
  unfolding apply accept decline revoke
  apply-gains (changes_role v r) org u h e =
      cc (change_role-gains redacted same_email v r org u h, e)
  apply-gains (deactivates now v) org u h e =
      cc (deactivate-gains redacted same_email now v org u h, e)
  apply-gains (reactivates v) org u h e = reactivate-gains redacted same_email v org u h e
  apply-gains (transfers v) org u h e =
      cc (transfer-gains redacted same_email v (find_by_user v org.memberships) org u refl h, e)
  apply-gains (approves v) org u h e = approve-gains redacted same_email v org u h e
  apply-gains (accepts now k v email) org u h e =
      let p = with_invitation-gains now email _ (find_invitation k org.invitations) org u h e in
      (accept_as-gains redacted same_email p.0 v org u h p.4, (p.0, p.1, p.2, p.3))
  apply-gains (declines now k email) org u h e =
      let p = with_invitation-gains now email _ (find_invitation k org.invitations) org u h e in
      removed_invitation-gains p.0.id u org h p.4
  apply-gains (revokes now k) org u h e =
      revoked-gains now u (find_invitation k org.invitations) org h e
