-- ===== src/Members/Uniqueness.antt =====
-- The pair of an organization and a user is unique.
use moneygun.Base.{
  Bool-cases, inl, inr, ℕ, ◌≡◌, refl, Bool, false, ◌||◌, ◌==◌, List, [], ◌∷◌, ◌++◌, Option, none,
  some, Text, arith,
}
use moneygun.Members.{
  hand_over, candidate, no_candidate, Membership, Invitation, Organization, Outcome, saved, refused,
  Error, Failure, find_by_user, replace, update, save_if, errors, change, join, change_role,
  deactivate, reactivate, transfer_ownership, approve,
}
use moneygun.Members.Actions.{
  Action, changes_role, deactivates, reactivates, transfers, approves, accepts, declines, revokes,
  accept, decline, revoke, accept_as, is_active, find_invitation, remove_invitation, apply, after,
  run,
}
use moneygun.Members.Owner.{Saves}
use moneygun.Members.History.{with_invitation-Saves}

abbrev pub has_row : ℕ → List Membership → Bool
has_row u [] = false
has_row u (m ∷ ms) = (m.user_id == u) || has_row u ms

-- No two rows are of the same user.
abbrev pub AreUnique : List Membership → Type 0
AreUnique [] = Unit
AreUnique (m ∷ ms) = (has_row m.user_id ms ≡ false) × AreUnique ms

abbrev pub IsUnique : Organization → Type 0
IsUnique org = AreUnique org.memberships

has_row-replace :
    (u : ℕ) (m : Membership) (ms : List Membership) → has_row u (replace m ms) ≡ has_row u ms
unfolding replace
has_row-replace u m [] = refl
has_row-replace u m (n ∷ ns) = ground (arith, has_row-replace u m ns)

replace-AreUnique :
    (m : Membership) (ms : List Membership) → AreUnique ms → AreUnique (replace m ms)
unfolding replace
replace-AreUnique m [] h = tt
replace-AreUnique m (n ∷ ns) h =
    ground (arith, replace-AreUnique m ns h.1, has_row-replace n.user_id m ns)

pub has_row-append :
    (u : ℕ) (ms : List Membership) (m : Membership)
    → has_row u (ms ++ m ∷ []) ≡ (has_row u ms || (m.user_id == u))
has_row-append u [] m = ground arith
has_row-append u (n ∷ ns) m = ground (arith, has_row-append u ns m)

append-AreUnique :
    (ms : List Membership) (m : Membership)
    → find_by_user m.user_id ms ≡ none
    → AreUnique ms
    → AreUnique (ms ++ m ∷ [])
unfolding find_by_user
append-AreUnique [] m f h = (refl, tt)
append-AreUnique (n ∷ ns) m f h =
    ground (arith, append-AreUnique ns m, has_row-append n.user_id ns m)

module _ (redacted : ℕ → Bool) where
  save_if-has_row :
      (es : List Error) (org : Organization) (m : Membership) (u : ℕ)
      → Saves
          (λ new. has_row u new.memberships ≡ has_row u org.memberships)
          (save_if redacted es org m)
  unfolding save_if
  save_if-has_row [] org m u = has_row-replace u m org.memberships
  save_if-has_row (e ∷ es) org m u = tt

  -- An update gives nobody a row.
  pub update-has_row :
      (org : Organization) (was m : Membership) (u : ℕ)
      → Saves
          (λ new. has_row u new.memberships ≡ has_row u org.memberships)
          (update redacted org was m)
  unfolding update
  update-has_row org was m u = save_if-has_row (errors redacted org was m) org m u

  save_if-IsUnique :
      (es : List Error) (org : Organization) (m : Membership)
      → IsUnique org
      → Saves IsUnique (save_if redacted es org m)
  unfolding save_if
  save_if-IsUnique [] org m h = replace-AreUnique m org.memberships h
  save_if-IsUnique (e ∷ es) org m h = tt

  change-IsUnique :
      (f : Membership → Membership) (failure : Failure) (o : Option Membership) (org : Organization)
      → IsUnique org
      → Saves IsUnique (change redacted f failure o org)
  unfolding change update
  change-IsUnique f failure none org h = tt
  change-IsUnique f failure (some m) org h =
      save_if-IsUnique (errors redacted org m (f m)) org (f m) h

  join-IsUnique :
      (f : Membership → Membership) (new : Membership) (o : Option Membership) (org : Organization)
      → (o ≡ none → find_by_user new.user_id org.memberships ≡ none)
      → IsUnique org
      → Saves IsUnique (join redacted f new o org)
  unfolding join update
  join-IsUnique f new none org q h = append-AreUnique org.memberships new (q refl) h
  join-IsUnique f new (some m) org q h = save_if-IsUnique (errors redacted org m (f m)) org (f m) h

  hand_over-IsUnique :
      (u : ℕ) (o : Outcome) → Saves IsUnique o → Saves IsUnique (hand_over redacted u o)
  unfolding hand_over
  hand_over-IsUnique u (saved org) h = h
  hand_over-IsUnique u (refused f) h = tt

module _ (redacted : ℕ → Bool) (same_email : Text → Text → Bool) where
  accept_as-IsUnique :
      (i : Invitation) (u : ℕ) (org : Organization)
      → IsUnique org
      → Saves IsUnique (accept_as redacted same_email i u (find_by_user u org.memberships) org)
  unfolding accept_as remove_invitation
  accept_as-IsUnique i u org h = elim (Bool-cases (is_active (find_by_user u org.memberships))) [
    | inl e ↦ rw e tt
    | inr e ↦ rw e (
        join-IsUnique redacted _ _ (find_by_user u org.memberships) (remove_invitation i.id org)
          (λ q. q) h)
  ]

  pub apply-IsUnique :
      (a : Action) (org : Organization)
      → IsUnique org
      → Saves IsUnique (apply redacted same_email a org)
  unfolding apply change_role deactivate reactivate transfer_ownership approve accept decline revoke
      remove_invitation
  apply-IsUnique (changes_role u role) org h =
      change-IsUnique redacted _ _ (find_by_user u org.memberships) org h
  apply-IsUnique (deactivates now u) org h =
      change-IsUnique redacted _ _ (find_by_user u org.memberships) org h
  apply-IsUnique (reactivates u) org h =
      change-IsUnique redacted _ _ (find_by_user u org.memberships) org h
  apply-IsUnique (transfers u) org h = hand_over-IsUnique redacted u _ (
      change-IsUnique redacted _ no_candidate
        (candidate redacted org.owner_id (find_by_user u org.memberships)) org h)
  apply-IsUnique (approves u) org h =
      join-IsUnique redacted _ _ (find_by_user u org.memberships) org (λ q. q) h
  apply-IsUnique (accepts now id u e) org h =
      with_invitation-Saves redacted same_email IsUnique now (some e) _
        (find_invitation id org.invitations) (λ i. accept_as-IsUnique i u org h)
  apply-IsUnique (declines now id e) org h =
      with_invitation-Saves redacted same_email IsUnique now (some e)
        (λ i. saved (remove_invitation i.id org)) (find_invitation id org.invitations) (λ i. h)
  apply-IsUnique (revokes now id) org h =
      with_invitation-Saves redacted same_email IsUnique now none
        (λ i. saved (remove_invitation i.id org)) (find_invitation id org.invitations) (λ i. h)

  pub after-IsUnique :
      (org : Organization) (o : Outcome) → IsUnique org → Saves IsUnique o → IsUnique (after org o)
  unfolding after
  after-IsUnique org (saved new) h s = s
  after-IsUnique org (refused f) h s = h

  -- Where no user has two memberships in an organization, no sequence of operations gives a user a
  -- second one.
  pub run-IsUnique :
      (actions : List Action) (org : Organization)
      → IsUnique org
      → IsUnique (run redacted same_email actions org)
  unfolding run
  run-IsUnique [] org h = h
  run-IsUnique (a ∷ later) org h =
      run-IsUnique later (after org (apply redacted same_email a org))
        (after-IsUnique org (apply redacted same_email a org) h (apply-IsUnique a org h))
