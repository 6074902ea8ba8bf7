-- ===== src/Members/Owner.antt =====
-- The owner of an organization and its admins.
use moneygun.Base.{
  ℕ, ◌≡◌, refl, ap, ◌∙◌, Bool, true, false, ◌&&◌, ◌||◌, ◌==◌, List, [], ◌∷◌, ◌++◌, Option, none,
  some, arith,
}
use moneygun.Members.{
  Role, Membership, Organization, Outcome, saved, refused, Failure, is_admin, active, Error,
  save_if, find_by_user, replace, errors, update, change, join, change_role, deactivate, reactivate,
  approve,
}

-- An active admin membership of a user.
abbrev pub is_admin_of : ℕ → Membership → Bool
is_admin_of u m = m.user_id == u && (is_admin m.role && active m.deactivated_at)

abbrev pub has_admin : ℕ → List Membership → Bool
has_admin u [] = false
has_admin u (m ∷ ms) = is_admin_of u m || has_admin u ms

-- The owner has an active admin membership.
abbrev pub IsLed : Organization → Type 0
IsLed org = has_admin org.owner_id org.memberships ≡ true

-- A change that keeps the user, and an active admin of the user `o` as one.
abbrev pub Keeps : ℕ → Membership → Membership → Type 0
Keeps o was m = (m.user_id ≡ was.user_id) × (is_admin_of o was ≡ true → is_admin_of o m ≡ true)

pub has_admin-replace :
    (o : ℕ) (was m : Membership) (ms : List Membership)
    → find_by_user m.user_id ms ≡ some was
    → Keeps o was m
    → has_admin o ms ≡ true
    → has_admin o (replace m ms) ≡ true
unfolding find_by_user replace
has_admin-replace o was m [] f k h = cc
has_admin-replace o was m (n ∷ ns) f k h = ground (arith, has_admin-replace o was m ns)

pub has_admin-append :
    (u : ℕ) (ms : List Membership) (m : Membership)
    → has_admin u ms ≡ true
    → has_admin u (ms ++ m ∷ []) ≡ true
has_admin-append u [] m h = cc
has_admin-append u (n ∷ ns) m h = ground (arith, has_admin-append u ns m)

pub find-user :
    (u : ℕ) (ms : List Membership) (m : Membership) → find_by_user u ms ≡ some m → m.user_id ≡ u
unfolding find_by_user
find-user u [] m f = cc
find-user u (n ∷ ns) m f = ground (arith, find-user u ns m)

-- What holds of the organization that an operation saves.
abbrev pub Saves : (Organization → Type 0) → Outcome → Type 0
Saves P (saved org) = P org
Saves P (refused f) = Unit

module _ (redacted : ℕ → Bool) where
  -- The validations refuse to demote the owner and to deactivate the owner.
  errors-Keeps :
      (org : Organization) (was m : Membership)
      → m.user_id ≡ was.user_id
      → errors redacted org was m ≡ []
      → Keeps org.owner_id was m
  unfolding errors
  errors-Keeps org was m h e = (h, λ k. ground (arith, k, e))

  save_if-IsLed :
      (es : List Error) (org : Organization) (was m : Membership)
      → (es ≡ [] → Keeps org.owner_id was m)
      → find_by_user m.user_id org.memberships ≡ some was
      → IsLed org
      → Saves IsLed (save_if redacted es org m)
  unfolding save_if
  save_if-IsLed [] org was m k f l =
      has_admin-replace org.owner_id was m org.memberships f (k refl) l
  save_if-IsLed (e ∷ es) org was m k f l = tt

  pub update-IsLed :
      (org : Organization) (was m : Membership)
      → m.user_id ≡ was.user_id
      → find_by_user m.user_id org.memberships ≡ some was
      → IsLed org
      → Saves IsLed (update redacted org was m)
  unfolding update
  update-IsLed org was m h f l =
      save_if-IsLed (errors redacted org was m) org was m (errors-Keeps org was m h) f l

  change-IsLed :
      (f : Membership → Membership) (failure : Failure) (o : Option Membership) (org : Organization)
      → ((m : Membership) → (f m).user_id ≡ m.user_id)
      → ((m : Membership) → o ≡ some m → find_by_user m.user_id org.memberships ≡ some m)
      → IsLed org
      → Saves IsLed (change redacted f failure o org)
  unfolding change
  change-IsLed f failure none org k q l = tt
  change-IsLed f failure (some m) org k q l = update-IsLed org m (f m) (k m) (rw (k m) (q m refl)) l

  pub found_by_user :
      (u : ℕ) (ms : List Membership) (m : Membership)
      → find_by_user u ms ≡ some m
      → find_by_user m.user_id ms ≡ some m
  found_by_user u ms m h = ap (λ v. find_by_user v ms) (find-user u ms m h) ∙ h

  pub change_role-IsLed :
      (u : ℕ) (role : Role) (org : Organization)
      → IsLed org
      → Saves IsLed (change_role redacted u role org)
  unfolding change_role
  change_role-IsLed u role org =
      change-IsLed _ _ (find_by_user u org.memberships) org (λ m. refl)
        (found_by_user u org.memberships)

  pub deactivate-IsLed :
      (now u : ℕ) (org : Organization) → IsLed org → Saves IsLed (deactivate redacted now u org)
  unfolding deactivate
  deactivate-IsLed now u org =
      change-IsLed _ _ (find_by_user u org.memberships) org (λ m. refl)
        (found_by_user u org.memberships)

  pub reactivate-IsLed :
      (u : ℕ) (org : Organization) → IsLed org → Saves IsLed (reactivate redacted u org)
  unfolding reactivate
  reactivate-IsLed u org =
      change-IsLed _ _ (find_by_user u org.memberships) org (λ m. refl)
        (found_by_user u org.memberships)

  pub join-IsLed :
      (f : Membership → Membership) (new : Membership) (o : Option Membership) (org : Organization)
      → ((m : Membership) → (f m).user_id ≡ m.user_id)
      → ((m : Membership) → o ≡ some m → find_by_user m.user_id org.memberships ≡ some m)
      → IsLed org
      → Saves IsLed (join redacted f new o org)
  unfolding join
  join-IsLed f new none org k q l = has_admin-append org.owner_id org.memberships new l
  join-IsLed f new (some m) org k q l = update-IsLed org m (f m) (k m) (rw (k m) (q m refl)) l

  pub approve-IsLed :
      (u : ℕ) (org : Organization) → IsLed org → Saves IsLed (approve redacted u org)
  unfolding approve
  approve-IsLed u org =
      join-IsLed _ _ (find_by_user u org.memberships) org (λ m. refl)
        (found_by_user u org.memberships)
