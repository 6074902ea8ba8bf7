-- ===== src/Members/Simulation.antt =====
-- Every operation on an organization does what the rules say, and nothing else.
use mathlib.Core.Path.{fun_ext}
use moneygun.Base.{
  ℕ, ◌≡◌, refl, ap, ◌∙◌, sym, ◌≢◌, Bool, true, not, ◌&&◌, ◌==◌, List, [], ◌∷◌, Option, none, some,
  Text, ltb, if◌then◌else◌, arith, Bool-cases, inl, inr,
}
use moneygun.Members.{
  admin, Membership, Invitation, Organization, Outcome, active, update, find_by_user, replace,
  change_role, deactivate, reactivate, transfer_ownership, approve, join,
}
use moneygun.Members.Actions.{
  Action, changes_role, deactivates, reactivates, transfers, approves, accepts, declines, revokes,
  after, is_active, find_invitation, remove_invitation, accept_as, with_invitation, accept, decline,
  revoke, apply, run,
}
use moneygun.Members.Owner.{find-user, found_by_user}
use moneygun.Members.History.{apply-IsLed, after-IsLed}
use moneygun.Members.Uniqueness.{apply-IsUnique, after-IsUnique}
use moneygun.Members.Transfers.{transfer_saved, transfer_refused}
use moneygun.Members.Rules.{
  allowed, Company, set, hand_to, closes, comes_in, newcomer, with_open, comes, obeys, obeys_all,
}
use moneygun.Members.Refinement.{
  company, IsSound, find-replaced, find-appended, update_accepted, update_refused, change-refines,
  join-refines,
}

module _ (redacted : ℕ → Bool) (same_email : Text → Text → Bool) where
  transferred :
      (u : ℕ) (org : Organization) (m : Membership)
      → find_by_user u org.memberships ≡ some m
      → active m.deactivated_at ≡ true
      → u ≢ org.owner_id
      → company (after org (transfer_ownership redacted u org)) ≡ record (company org) {
        owner = m.user_id;
        membership = set m.user_id (record m { role = admin }) (company org).membership;
      }
  transferred u org m f a n =
      ap (λ o. company (after org o)) (transfer_saved redacted u org m f a n)
      ∙ unfold after in
        ap
          (λ w. record (company org) {
            owner = w;
            membership = λ v. find_by_user v (replace (record m { role = admin }) org.memberships);
          })
          (sym (find-user u org.memberships m f))
        ∙ ap (λ g. record (company org) { owner = m.user_id; membership = g })
            (fun_ext λ v.
              find-replaced v (record m { role = admin }) m org.memberships
                (found_by_user redacted u org.memberships m f))

  with_invitation-refines :
      (now : ℕ) (e : Option Text) (k : Invitation → Outcome) (j : Invitation → Company)
      (o : Option Invitation) (org : Organization)
      → ((i : Invitation) → company (after org (k i)) ≡ j i)
      → company (after org (with_invitation redacted same_email now e k o))
        ≡ with_open redacted same_email now e j o (company org)
  unfolding with_invitation with_open after
  with_invitation-refines now e k j none org h = refl
  with_invitation-refines now none k j (some i) org h = elim (Bool-cases (ltb i.expires_at now)) [
    | inl b ↦ rw b refl
    | inr b ↦ rw b (h i)
  ]
  with_invitation-refines now (some e) k j (some i) org h =
      elim (Bool-cases (ltb i.expires_at now)) [
        | inl b ↦ rw b refl
        | inr b ↦ elim (Bool-cases (same_email i.email e)) [
          | inl c ↦ rw (b, c) (h i)
          | inr c ↦ rw (b, c) refl
        ]
      ]

  returned :
      (i : Invitation) (org : Organization) (m : Membership)
      → IsSound org
      → find_by_user m.user_id org.memberships ≡ some m
      → company (after org (update redacted (remove_invitation i.id org) m (comes_in i m))) ≡ (
          if allowed redacted same_email org.owner_id m (comes_in i m)
          then closes i.id (record (company org) {
            membership = set m.user_id (comes_in i m) (company org).membership;
          })
          else company org)
  unfolding remove_invitation closes
  returned i org m v f =
      let gone = remove_invitation i.id org in
      let sound : IsSound gone = record { led = v.led; unique = v.unique } in
      elim (Bool-cases (allowed redacted same_email org.owner_id m (comes_in i m))) [
        | inl a ↦
            rw a (update_accepted redacted same_email org gone m (comes_in i m) sound refl f a)
        | inr a ↦ rw a (
            ap company
              (update_refused redacted same_email org gone m (comes_in i m) sound refl f a))
      ]

  accept_as-refines :
      (i : Invitation) (u : ℕ) (o : Option Membership) (org : Organization)
      → IsSound org
      → find_by_user u org.memberships ≡ o
      → company (after org (accept_as redacted same_email i u o org))
        ≡ comes redacted same_email i u o (company org)
  unfolding accept_as comes is_active join after closes remove_invitation
  accept_as-refines i u none org v f =
      ap (λ g. closes i.id (record (company org) { membership = g }))
        (fun_ext λ w. find-appended w (newcomer u i.role) org.memberships f)
  accept_as-refines i u (some m) org v f = elim (Bool-cases (active m.deactivated_at)) [
    | inl b ↦ rw b refl
    | inr b ↦ rw b (returned i org m v (found_by_user redacted u org.memberships m f))
  ]

  transfer-refines :
      (u : ℕ) (o : Option Membership) (org : Organization)
      → IsSound org
      → find_by_user u org.memberships ≡ o
      → company (after org (transfer_ownership redacted u org)) ≡ hand_to o (company org)
  unfolding hand_to after
  transfer-refines u none org v f =
      ap (λ o. company (after org o)) (transfer_refused redacted u org (λ m g a. cc))
  transfer-refines u (some m) org v f =
      let same : m.user_id ≡ u = find-user u org.memberships m f in
      elim (Bool-cases (active m.deactivated_at && not (m.user_id == org.owner_id))) [
        | inl b ↦ rw b (transferred u org m f (ground arith) (ground (arith, same)))
        | inr b ↦ rw b (
            ap (λ o. company (after org o))
              (transfer_refused redacted u org
                (λ n g a. let e : some m ≡ some n = sym f ∙ g in ground (arith, e))))
      ]

  apply-refines :
      (a : Action) (org : Organization)
      → IsSound org
      → company (after org (apply redacted same_email a org))
        ≡ obeys redacted same_email a (company org)
  unfolding apply obeys change_role deactivate reactivate approve accept decline revoke after
      remove_invitation
  apply-refines (changes_role u r) org v =
      change-refines redacted same_email _ _ (find_by_user u org.memberships) org v (λ m. refl)
        (found_by_user redacted u org.memberships)
  apply-refines (deactivates now u) org v =
      change-refines redacted same_email _ _ (find_by_user u org.memberships) org v (λ m. refl)
        (found_by_user redacted u org.memberships)
  apply-refines (reactivates u) org v =
      change-refines redacted same_email _ _ (find_by_user u org.memberships) org v (λ m. refl)
        (found_by_user redacted u org.memberships)
  apply-refines (transfers u) org v = transfer-refines u (find_by_user u org.memberships) org v refl
  apply-refines (approves u) org v =
      join-refines redacted same_email _ _ (find_by_user u org.memberships) org v (λ m. refl)
        (found_by_user redacted u org.memberships) (λ e. e)
  apply-refines (accepts now k u e) org v =
      with_invitation-refines now (some e) _ _ (find_invitation k org.invitations) org
        (λ i. accept_as-refines i u (find_by_user u org.memberships) org v refl)
  apply-refines (declines now k e) org v =
      with_invitation-refines now (some e) _ _ (find_invitation k org.invitations) org (λ i. refl)
  apply-refines (revokes now k) org v =
      with_invitation-refines now none _ _ (find_invitation k org.invitations) org (λ i. refl)

  after-IsSound :
      (a : Action) (org : Organization)
      → IsSound org
      → IsSound (after org (apply redacted same_email a org))
  after-IsSound a org v = record {
    led =
        after-IsLed redacted same_email org (apply redacted same_email a org) v.led
          (apply-IsLed redacted same_email a org v.led);
    unique =
        after-IsUnique redacted same_email org (apply redacted same_email a org) v.unique
          (apply-IsUnique redacted same_email a org v.unique);
  }

  -- Where the owner is an active admin and no user has two memberships, what any sequence of actions
  -- makes of an organization, seen without its rows and their order, is what the rules make of it.
  pub run-refines :
      (actions : List Action) (org : Organization)
      → IsSound org
      → company (run redacted same_email actions org)
        ≡ obeys_all redacted same_email actions (company org)
  unfolding run obeys_all
  run-refines [] org v = refl
  run-refines (a ∷ later) org v =
      run-refines later (after org (apply redacted same_email a org)) (after-IsSound a org v)
      ∙ ap (obeys_all redacted same_email later) (apply-refines a org v)
