-- ===== src/Members/Transfers.antt =====
-- The transfer of ownership.
use moneygun.Base.{
  ℕ, ◌≡◌, refl, ◌≢◌, Bool, true, ◌==◌, List, [], ◌∷◌, none, some, Option, Bool-cases, inl, inr,
  arith,
}
use moneygun.Members.{
  hand_over, no_candidate, admin, Membership, Organization, saved, refused, save_if, is_admin,
  active, find_by_user, replace, errors, update, change, transfer_ownership, candidate,
}
use moneygun.Members.Actions.{after}
use moneygun.Members.Owner.{
  is_admin_of, has_admin, IsLed, Saves, has_admin-replace, find-user, found_by_user, Keeps,
}

module _ (redacted : ℕ → Bool) where
  replace_admin :
      (u : ℕ) (was m : Membership) (ms : List Membership)
      → find_by_user m.user_id ms ≡ some was
      → is_admin_of u m ≡ true
      → has_admin u (replace m ms) ≡ true
  unfolding find_by_user replace
  replace_admin u was m [] f h = cc
  replace_admin u was m (n ∷ ns) f h = ground (arith, replace_admin u was m ns)

  -- Promoting a membership violates no validation.
  promote_valid :
      (org : Organization) (m : Membership)
      → active m.deactivated_at ≡ true
      → errors redacted org m (record m { role = admin }) ≡ []
  unfolding errors
  promote_valid org m h = ground arith

  -- An active membership of another user is a candidate.
  hand_over-done :
      (org : Organization) (m : Membership)
      → find_by_user m.user_id org.memberships ≡ some m
      → active m.deactivated_at ≡ true
      → hand_over redacted m.user_id
          (change redacted (λ n. record n { role = admin }) no_candidate (some m) org)
        ≡ saved (record org {
          owner_id = m.user_id;
          memberships = replace (record m { role = admin }) org.memberships;
        })
  unfolding change hand_over update save_if
  hand_over-done org m f a = rw (promote_valid org m a) refl

  -- Ownership goes to a user with an active membership who is not the owner, and to nobody else.
  pub transfer_saved :
      (u : ℕ) (org : Organization) (m : Membership)
      → find_by_user u org.memberships ≡ some m
      → active m.deactivated_at ≡ true
      → u ≢ org.owner_id
      → transfer_ownership redacted u org
        ≡ saved (record org {
          owner_id = u;
          memberships = replace (record m { role = admin }) org.memberships;
        })
  unfolding transfer_ownership
  transfer_saved u org m f a n = ground (
    arith,
    find-user u org.memberships m f,
    hand_over-done org m (found_by_user redacted u org.memberships m f) a,
  )

  candidate-none :
      (o : ℕ) (f : Option Membership)
      → ((m : Membership) → f ≡ some m → active m.deactivated_at ≡ true → m.user_id ≡ o)
      → candidate redacted o f ≡ none
  unfolding candidate
  candidate-none o none h = refl
  candidate-none o (some m) h = ground (arith, h m refl)

  -- Where the user has no active membership, or is the owner, the transfer is refused.
  pub transfer_refused :
      (u : ℕ) (org : Organization)
      → ((m : Membership)
          → find_by_user u org.memberships ≡ some m
          → active m.deactivated_at ≡ true
          → m.user_id ≡ org.owner_id)
      → transfer_ownership redacted u org ≡ refused no_candidate
  unfolding transfer_ownership change hand_over
  transfer_refused u org h =
      rw (candidate-none org.owner_id (find_by_user u org.memberships) h) refl

  promoted :
      (u : ℕ) (m : Membership)
      → m.user_id ≡ u
      → active m.deactivated_at ≡ true
      → is_admin_of u (record m { role = admin }) ≡ true
  unfolding is_admin
  promoted u m e a = ground arith

  promote-Keeps : (o : ℕ) (m : Membership) → Keeps o m (record m { role = admin })
  unfolding is_admin
  promote-Keeps o m = (refl, λ k. ground (arith, k))

  -- A transfer to a user who has an active membership and is not the owner succeeds: that user is
  -- then the owner and an active admin, and the former owner is still an active admin.
  pub transfer_done :
      (u : ℕ) (org : Organization) (m : Membership)
      → find_by_user u org.memberships ≡ some m
      → active m.deactivated_at ≡ true
      → u ≢ org.owner_id
      → IsLed org
      → let out = after org (transfer_ownership redacted u org) in
        (out.owner_id ≡ u)
        × (has_admin u out.memberships ≡ true)
        × (has_admin org.owner_id out.memberships ≡ true)
  unfolding after
  transfer_done u org m f a n l =
      let e = find-user u org.memberships m f in
      let g = found_by_user redacted u org.memberships m f in
      rw (transfer_saved u org m f a n) (
        refl,
        replace_admin u m (record m { role = admin }) org.memberships g (promoted u m e a),
        has_admin-replace org.owner_id m (record m { role = admin }) org.memberships g
            (promote-Keeps org.owner_id m) l,
      )

  transfer_cases :
      (u : ℕ) (org : Organization) (f : Option Membership)
      → find_by_user u org.memberships ≡ f
      → IsLed org
      → Saves IsLed (transfer_ownership redacted u org)
  transfer_cases u org none f l = rw (transfer_refused u org (λ m g. cc)) tt
  transfer_cases u org (some m) f l = elim (Bool-cases (active m.deactivated_at)) [
    | inl a ↦ elim (Bool-cases (u == org.owner_id)) [
      | inl e ↦
          rw (transfer_refused u org (λ k g b. ground (arith, find-user u org.memberships k g))) tt
      | inr e ↦ rw (transfer_saved u org m f a (λ q. ground (arith, q, e))) (
          replace_admin u m (record m { role = admin }) org.memberships
            (found_by_user redacted u org.memberships m f)
            (promoted u m (find-user u org.memberships m f) a))
    ]
    | inr a ↦ rw (transfer_refused u org (λ k g b. ground (arith, g, f, a, b))) tt
  ]

  pub transfer-IsLed :
      (u : ℕ) (org : Organization) → IsLed org → Saves IsLed (transfer_ownership redacted u org)
  transfer-IsLed u org = transfer_cases u org (find_by_user u org.memberships) refl
