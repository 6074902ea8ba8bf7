-- ===== src/Sso/Granting.antt =====
-- Whom a sign-in through an identity provider lets in.
use moneygun.Base.{
  ℕ, ◌≡◌, refl, ap, ◌∙◌, sym, Bool, true, List, [], ◌∷◌, ◌++◌, Option, none, some, Text,
  text_eq_refl, arith, Bool-cases, inl, inr,
}
use moneygun.Members.{
  Role, Membership, Organization, Outcome, saved, refused, active, find_by_user, update,
}
use moneygun.Members.Owner.{found_by_user, find-user}
use moneygun.Members.Refinement.{find-appended}
use moneygun.Members.Rules.{set}
use moneygun.Members.Returns.{update-find}
use moneygun.SignIn.{User, find_by_email, can_authenticate}
use moneygun.SignIn.Steps.{new_user}
use moneygun.Sso.{Domain, asserts_email}
use moneygun.Sso.Resolution.{
  Reason, Answer, granted, denied, Place, Settings, reactivated, by_provider, provision,
  for_membership, for_user, resolve_sign_in,
}

-- The membership is an active one of a user with the address who may sign in.
abbrev pub IsMember : Text → Membership → Place → Type 0
IsMember email m p =
    (find_by_user m.user_id p.org.memberships ≡ some m)
    × (active m.deactivated_at ≡ true)
    × (u : User) × (find_by_email email p.users ≡ some u)
    × (u.id ≡ m.user_id)
    × (can_authenticate u ≡ true)

abbrev granted_by : Answer → Membership → Membership
granted_by (granted n) m = n
granted_by (denied r) m = m

same_membership : (m n : Membership) → granted m ≡ granted n → m ≡ n
same_membership m n e = ap (λ a. granted_by a m) e

find-new_user :
    (i : ℕ) (email : Text) (us : List User)
    → find_by_email email us ≡ none
    → find_by_email email (us ++ new_user i email ∷ []) ≡ some (new_user i email)
unfolding find_by_email new_user
find-new_user i email [] f = rw (text_eq_refl email) refl
find-new_user i email (u ∷ us) f = ground (arith, find-new_user i email us)

own_row :
    (i : ℕ) (m : Membership) (g : ℕ → Option Membership)
    → m.user_id ≡ i
    → set m.user_id m g i ≡ some m
own_row i m g e = ground (arith, e)

module _ (redacted : ℕ → Bool) (acceptable : Text → Bool) where
  provision-granted :
      (role : Role) (i : ℕ) (email : Text) (p : Place) (m : Membership)
      → find_by_user i p.org.memberships ≡ none
      → find_by_email email p.users ≡ none
      → (provision redacted acceptable role i email p).1 ≡ granted m
      → IsMember email m (provision redacted acceptable role i email p).0
  unfolding provision
  provision-granted role i email p m f g h = elim (Bool-cases (acceptable email)) [
    | inl b ↦ rw b (
        rw (sym (same_membership _ m (rw b at h))) (
          find-appended i _ p.org.memberships f
              ∙ own_row i _ (λ v. find_by_user v p.org.memberships) refl,
          unfold active in refl,
          new_user i email,
          find-new_user i email p.users g,
          unfold new_user in refl,
          unfold can_authenticate new_user in refl,
        ))
    | inr b ↦ absurd (cc (rw b at h))
  ]

  reactivated-granted :
      (o : Outcome) (n m : Membership) (u : User) (email : Text) (p : Place)
      → ((org : Organization) → o ≡ saved org → find_by_user n.user_id org.memberships ≡ some n)
      → active n.deactivated_at ≡ true
      → find_by_email email p.users ≡ some u
      → u.id ≡ n.user_id
      → can_authenticate u ≡ true
      → (reactivated n o p).1 ≡ granted m
      → IsMember email m (reactivated n o p).0
  unfolding reactivated
  reactivated-granted (saved org) n m u email p q a g i c h =
      rw (sym (same_membership n m h)) (q org refl, a, u, g, i, c)
  reactivated-granted (refused f) n m u email p q a g i c h = cc

  for_membership-granted :
      (s : Settings) (o : Option Membership) (m : Membership) (u : User) (email : Text) (p : Place)
      → find_by_user u.id p.org.memberships ≡ o
      → find_by_email email p.users ≡ some u
      → can_authenticate u ≡ true
      → (for_membership redacted acceptable s o p).1 ≡ granted m
      → IsMember email m (for_membership redacted acceptable s o p).0
  unfolding for_membership
  for_membership-granted s none m u email p f g c h = cc
  for_membership-granted s (some n) m u email p f g c h =
      let own = found_by_user redacted u.id p.org.memberships n f in
      let i = sym (find-user u.id p.org.memberships n f) in
      elim (Bool-cases (active n.deactivated_at)) [
        | inl a ↦ rw a (rw (sym (same_membership n m (rw a at h))) (own, a, u, g, i, c))
        | inr a ↦ elim (Bool-cases s.jit_provisioning) [
          | inl j ↦
              rw (a, j)
                (reactivated-granted (update redacted p.org n (by_provider n)) (by_provider n) m u
                  email p (λ org e. update-find redacted p.org org n (by_provider n) e own)
                  (unfold active in refl) g i c (rw (a, j) at h))
          | inr j ↦ absurd (cc (rw (a, j) at h))
        ]
      ]

  for_user-granted :
      (s : Settings) (k : ℕ) (o : Option User) (m : Membership) (email : Text) (p : Place)
      → find_by_user k p.org.memberships ≡ none
      → find_by_email email p.users ≡ o
      → (for_user redacted acceptable s k email o p).1 ≡ granted m
      → IsMember email m (for_user redacted acceptable s k email o p).0
  unfolding for_user
  for_user-granted s k none m email p f g h = elim (Bool-cases s.jit_provisioning) [
    | inl j ↦ rw j (provision-granted s.default_membership_role k email p m f g (rw j at h))
    | inr j ↦ absurd (cc (rw j at h))
  ]
  for_user-granted s k (some u) m email p f g h = elim (Bool-cases (can_authenticate u)) [
    | inl c ↦ rw c (
        for_membership-granted s (find_by_user u.id p.org.memberships) m u email p refl g c
          (rw c at h))
    | inr c ↦ absurd (cc (rw c at h))
  ]

  -- A sign-in through a connection that is granted is for an address that the connection speaks for,
  -- and leaves an active membership of a user with this address who may sign in, where the number for
  -- a new user has no membership.
  pub resolve_granted :
      (clean : Text → Text) (c : ℕ) (s : Settings) (k : ℕ) (email : Text) (ds : List Domain)
      (p : Place) (m : Membership)
      → find_by_user k p.org.memberships ≡ none
      → (resolve_sign_in redacted acceptable clean c s k email ds p).1 ≡ granted m
      → (asserts_email clean c email ds ≡ true)
        × IsMember email m (resolve_sign_in redacted acceptable clean c s k email ds p).0
  unfolding resolve_sign_in
  resolve_granted clean c s k email ds p m f h =
      elim (Bool-cases (asserts_email clean c email ds)) [
        | inl a ↦
            rw a (
              refl,
              for_user-granted s k (find_by_email email p.users) m email p f refl (rw a at h),
            )
        | inr a ↦ absurd (cc (rw a at h))
      ]

  reactivated-denied :
      (o : Outcome) (n : Membership) (r : Reason) (p : Place)
      → (reactivated n o p).1 ≡ denied r
      → (reactivated n o p).0 ≡ p
  unfolding reactivated
  reactivated-denied (saved org) n r p h = cc
  reactivated-denied (refused f) n r p h = refl

  for_membership-denied :
      (s : Settings) (o : Option Membership) (r : Reason) (p : Place)
      → (for_membership redacted acceptable s o p).1 ≡ denied r
      → (for_membership redacted acceptable s o p).0 ≡ p
  unfolding for_membership
  for_membership-denied s none r p h = refl
  for_membership-denied s (some n) r p h =
      ground
        (arith, reactivated-denied (update redacted p.org n (by_provider n)) (by_provider n) r p)

  for_user-denied :
      (s : Settings) (k : ℕ) (email : Text) (o : Option User) (r : Reason) (p : Place)
      → (for_user redacted acceptable s k email o p).1 ≡ denied r
      → (for_user redacted acceptable s k email o p).0 ≡ p
  unfolding for_user provision
  for_user-denied s k email none r p h = ground arith
  for_user-denied s k email (some u) r p h =
      ground (arith, for_membership-denied s (find_by_user u.id p.org.memberships) r p)

  -- A sign-in through a connection that is denied, for whatever reason, leaves the users and the
  -- organization as they were.
  pub resolve_denied :
      (clean : Text → Text) (c : ℕ) (s : Settings) (k : ℕ) (email : Text) (ds : List Domain)
      (p : Place) (r : Reason)
      → (resolve_sign_in redacted acceptable clean c s k email ds p).1 ≡ denied r
      → (resolve_sign_in redacted acceptable clean c s k email ds p).0 ≡ p
  unfolding resolve_sign_in
  resolve_denied clean c s k email ds p r h =
      ground (arith, for_user-denied s k email (find_by_email email p.users) r p)
