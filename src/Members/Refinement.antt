-- ===== src/Members/Refinement.antt =====
-- The validations of an organization come down to the rules.
use moneygun.Base.{
  ℕ, ◌≡◌, refl, ap, ◌∙◌, sym, ◌≢◌, Bool, true, false, ◌==◌, ==_iff, List, [], ◌∷◌, ◌++◌, Option,
  none, some, Text, if◌then◌else◌, arith, Bool-cases, inl, inr,
}
use mathlib.Core.Path.{fun_ext}
use moneygun.Members.{
  Membership, Organization, Error, Failure, is_admin, find_by_user, replace, errors, save_if,
  update, change, join,
}
use moneygun.Members.Actions.{after}
use moneygun.Members.Owner.{has_admin, is_admin_of, IsLed}
use moneygun.Members.Uniqueness.{has_row, AreUnique, IsUnique}
use moneygun.Members.Permissions.{other_admin}
use moneygun.Members.Rules.{Company, set, allowed, amend, enter}

no_row_no_admin : (o : ℕ) (ms : List Membership) → has_row o ms ≡ false → has_admin o ms ≡ false
no_row_no_admin o [] h = refl
no_row_no_admin o (n ∷ ns) h = ground (arith, no_row_no_admin o ns)

absent_admin :
    (o : ℕ) (n : Membership) (ns : List Membership)
    → has_row n.user_id ns ≡ false
    → n.user_id ≡ o
    → has_admin o ns ≡ false
absent_admin o n ns h e = no_row_no_admin o ns (rw⁻¹ e h)

-- With unique rows, the row of the owner is that of an active admin.
owner_row :
    (o : ℕ) (ms : List Membership) (m : Membership)
    → AreUnique ms
    → has_admin o ms ≡ true
    → find_by_user o ms ≡ some m
    → is_admin_of o m ≡ true
unfolding find_by_user
owner_row o [] m v h f = cc
owner_row o (n ∷ ns) m v h f = ground (arith, absent_admin o n ns v.0, owner_row o ns m v.1)

-- What is seen of an organization.
abbrev pub company : Organization → Company
company org = record {
  owner = org.owner_id;
  membership = λ u. find_by_user u org.memberships;
  invitations = org.invitations;
}

pub find-replaced :
    (v : ℕ) (m was : Membership) (ms : List Membership)
    → find_by_user m.user_id ms ≡ some was
    → find_by_user v (replace m ms) ≡ set m.user_id m (λ u. find_by_user u ms) v
unfolding find_by_user replace
find-replaced v m was [] f = cc
find-replaced v m was (n ∷ ns) f = ground (arith, find-replaced v m was ns)

pub find-appended :
    (v : ℕ) (m : Membership) (ms : List Membership)
    → find_by_user m.user_id ms ≡ none
    → find_by_user v (ms ++ m ∷ []) ≡ set m.user_id m (λ u. find_by_user u ms) v
unfolding find_by_user
find-appended v m [] f = ground arith
find-appended v m (n ∷ ns) f = ground (arith, find-appended v m ns)

-- A sound organization: unique rows, and an owner who is an active admin.
pub record IsSound (org : Organization) : Type 0 where
  pub led : IsLed org
  pub unique : IsUnique org

owner_active :
    (org : Organization) (was : Membership)
    → IsSound org
    → find_by_user was.user_id org.memberships ≡ some was
    → (was.user_id == org.owner_id ≡ true → is_admin_of org.owner_id was ≡ true)
owner_active org was v f e =
    owner_row org.owner_id org.memberships was v.unique v.led
      (ap (λ u. find_by_user u org.memberships) (sym ((==_iff was.user_id org.owner_id).0 e)) ∙ f)

module _ (redacted : ℕ → Bool) (same_email : Text → Text → Bool) where
  accepts_allowed :
      (org : Organization) (was m : Membership)
      → IsLed org
      → (was.user_id == org.owner_id ≡ true → is_admin_of org.owner_id was ≡ true)
      → m.user_id ≡ was.user_id
      → allowed redacted same_email org.owner_id was m ≡ true
      → errors redacted org was m ≡ []
  unfolding errors allowed is_admin
  accepts_allowed org was m l o e a =
      ground (arith, other_admin org.owner_id m.user_id org.memberships)

  refuses_others :
      (org : Organization) (was m : Membership)
      → IsLed org
      → (was.user_id == org.owner_id ≡ true → is_admin_of org.owner_id was ≡ true)
      → m.user_id ≡ was.user_id
      → allowed redacted same_email org.owner_id was m ≡ false
      → errors redacted org was m ≢ []
  unfolding errors allowed is_admin
  refuses_others org was m l o e a h = ground (arith, o, e, a, h)

  save_accepted :
      (base org : Organization) (es : List Error) (was m : Membership)
      → es ≡ []
      → find_by_user m.user_id org.memberships ≡ some was
      → company (after base (save_if redacted es org m))
        ≡ record (company org) { membership = set m.user_id m (company org).membership }
  unfolding save_if after
  save_accepted base org [] was m e f =
      ap (λ g. record (company org) { membership = g })
        (fun_ext λ v. find-replaced v m was org.memberships f)
  save_accepted base org (x ∷ es) was m e f = cc

  save_refused :
      (base org : Organization) (es : List Error) (m : Membership)
      → es ≢ []
      → after base (save_if redacted es org m) ≡ base
  unfolding save_if after
  save_refused base org [] m n = absurd (n refl)
  save_refused base org (x ∷ es) m n = refl

  pub update_accepted :
      (base org : Organization) (was m : Membership)
      → IsSound org
      → m.user_id ≡ was.user_id
      → find_by_user was.user_id org.memberships ≡ some was
      → allowed redacted same_email org.owner_id was m ≡ true
      → company (after base (update redacted org was m))
        ≡ record (company org) { membership = set was.user_id m (company org).membership }
  unfolding update
  update_accepted base org was m v e f a =
      save_accepted base org (errors redacted org was m) was m
        (accepts_allowed org was m v.led (owner_active org was v f) e a)
        (ap (λ u. find_by_user u org.memberships) e ∙ f)
      ∙ ap (λ u. record (company org) { membership = set u m (company org).membership }) e

  pub update_refused :
      (base org : Organization) (was m : Membership)
      → IsSound org
      → m.user_id ≡ was.user_id
      → find_by_user was.user_id org.memberships ≡ some was
      → allowed redacted same_email org.owner_id was m ≡ false
      → after base (update redacted org was m) ≡ base
  unfolding update
  update_refused base org was m v e f a =
      save_refused base org (errors redacted org was m) m
        (refuses_others org was m v.led (owner_active org was v f) e a)

  -- In a sound organization an update of a membership is saved exactly if the rules allow it, and then
  -- changes what the user has and nothing else.
  pub update-refines :
      (org : Organization) (was m : Membership)
      → IsSound org
      → m.user_id ≡ was.user_id
      → find_by_user was.user_id org.memberships ≡ some was
      → company (after org (update redacted org was m)) ≡ (
          if allowed redacted same_email org.owner_id was m
          then record (company org) { membership = set was.user_id m (company org).membership }
          else company org)
  update-refines org was m v e f =
      elim (Bool-cases (allowed redacted same_email org.owner_id was m)) [
        | inl a ↦ rw a (update_accepted org org was m v e f a)
        | inr a ↦ rw a (ap company (update_refused org org was m v e f a))
      ]

  pub change-refines :
      (f : Membership → Membership) (failure : Failure) (o : Option Membership) (org : Organization)
      → IsSound org
      → ((m : Membership) → (f m).user_id ≡ m.user_id)
      → ((m : Membership) → o ≡ some m → find_by_user m.user_id org.memberships ≡ some m)
      → company (after org (change redacted f failure o org))
        ≡ amend redacted same_email f o (company org)
  unfolding change amend
  change-refines f failure none org v k q = unfold after in refl
  change-refines f failure (some m) org v k q = update-refines org m (f m) v (k m) (q m refl)

  pub join-refines :
      (f : Membership → Membership) (new : Membership) (o : Option Membership) (org : Organization)
      → IsSound org
      → ((m : Membership) → (f m).user_id ≡ m.user_id)
      → ((m : Membership) → o ≡ some m → find_by_user m.user_id org.memberships ≡ some m)
      → (o ≡ none → find_by_user new.user_id org.memberships ≡ none)
      → company (after org (join redacted f new o org))
        ≡ enter redacted same_email f new o (company org)
  unfolding join enter after
  join-refines f new none org v k q n =
      ap (λ g. record (company org) { membership = g })
        (fun_ext λ u. find-appended u new org.memberships (n refl))
  join-refines f new (some m) org v k q n = update-refines org m (f m) v (k m) (q m refl)
