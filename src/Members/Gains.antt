-- ===== src/Members/Gains.antt =====
-- Which users an operation on memberships makes active members.
use moneygun.Base.{
  ℕ, ◌≡◌, refl, ap, ◌∙◌, sym, ◌≢◌, Bool, true, false, not, ◌&&◌, ◌==◌, ==_iff, List, [], ◌∷◌,
  Option, none, some, Text, arith, Bool-cases, inl, inr,
}
use moneygun.Members.{
  Role, admin, Membership, Invitation, Organization, Error, Failure, active, find_by_user, errors,
  save_if, update, change, change_role, deactivate, reactivate, transfer_ownership, approve, join,
}
use moneygun.Members.Actions.{after, is_active, remove_invitation, accept_as}
use moneygun.Members.Owner.{find-user, found_by_user}
use moneygun.Members.Transfers.{transfer_saved, transfer_refused}
use moneygun.Members.Rules.{set}
use moneygun.Members.Refinement.{find-replaced, find-appended}

abbrev pub is_in : ℕ → Organization → Bool
is_in u org = is_active (find_by_user u org.memberships)

stays_false : (b : Bool) → (b ≡ true → ⊥) → b ≡ false
stays_false b n = elim (Bool-cases b) [ inl e ↦ absurd (n e) | inr e ↦ e ]

not_left : (now : ℕ) → active (some now) ≡ true → ⊥
unfolding active
not_left now h = cc

set-gains :
    (u : ℕ) (m : Membership) (g : ℕ → Option Membership)
    → is_active (g u) ≡ false
    → is_active (set m.user_id m g u) ≡ true
    → (m.user_id ≡ u) × (active m.deactivated_at ≡ true)
unfolding is_active
set-gains u m g h e = ground (arith, ==_iff u m.user_id)

found_in :
    (u : ℕ) (m : Membership) (org : Organization)
    → find_by_user m.user_id org.memberships ≡ some m
    → m.user_id ≡ u
    → active m.deactivated_at ≡ true
    → is_in u org ≡ true
found_in u m org f e a = ap (λ v. is_in v org) (sym e) ∙ (ap is_active f ∙ unfold is_active in a)

module _ (redacted : ℕ → Bool) (same_email : Text → Text → Bool) where
  save-gains :
      (base org : Organization) (es : List Error) (was m : Membership) (u : ℕ)
      → find_by_user m.user_id org.memberships ≡ some was
      → is_in u base ≡ false
      → is_in u org ≡ false
      → is_in u (after base (save_if redacted es org m)) ≡ true
      → (m.user_id ≡ u) × (active m.deactivated_at ≡ true)
  unfolding save_if after
  save-gains base org [] was m u f b h e =
      set-gains u m (λ v. find_by_user v org.memberships) h
        (ap is_active (sym (find-replaced u m was org.memberships f)) ∙ e)
  save-gains base org (x ∷ es) was m u f b h e = cc

  change-gains :
      (g : Membership → Membership) (failure : Failure) (o : Option Membership) (org : Organization)
      (u : ℕ)
      → ((m : Membership) → (g m).user_id ≡ m.user_id)
      → ((m : Membership) → o ≡ some m → find_by_user m.user_id org.memberships ≡ some m)
      → is_in u org ≡ false
      → is_in u (after org (change redacted g failure o org)) ≡ true
      → (m : Membership) × (o ≡ some m) × (m.user_id ≡ u) × (active (g m).deactivated_at ≡ true)
  unfolding change update
  change-gains g failure none org u k q h e = unfold after in cc
  change-gains g failure (some m) org u k q h e =
      let p =
        save-gains org org (errors redacted org m (g m)) m (g m) u
          (ap (λ v. find_by_user v org.memberships) (k m) ∙ q m refl) h h e in
      (m, refl, sym (k m) ∙ p.0, p.1)

  join-gains :
      (base org : Organization) (g : Membership → Membership) (new : Membership)
      (o : Option Membership) (v u : ℕ)
      → ((m : Membership) → (g m).user_id ≡ m.user_id)
      → new.user_id ≡ v
      → find_by_user v org.memberships ≡ o
      → is_in u base ≡ false
      → is_in u org ≡ false
      → is_in u (after base (join redacted g new o org)) ≡ true
      → v ≡ u
  unfolding join update
  join-gains base org g new none v u k n f b h e =
      sym n
      ∙ (set-gains u new (λ w. find_by_user w org.memberships) h
          (ap is_active (
              sym (
                find-appended u new org.memberships
                  (ap (λ w. find_by_user w org.memberships) n ∙ f)))
            ∙ unfold after in e)).0
  join-gains base org g new (some m) v u k n f b h e =
      sym (find-user v org.memberships m f)
      ∙ (sym (k m)
          ∙ (save-gains base org (errors redacted org m (g m)) m (g m) u
              (ap (λ w. find_by_user w org.memberships) (k m)
                ∙ found_by_user redacted v org.memberships m f)
              b h e).0)

  pub change_role-gains :
      (v : ℕ) (r : Role) (org : Organization) (u : ℕ)
      → is_in u org ≡ false
      → is_in u (after org (change_role redacted v r org)) ≡ false
  unfolding change_role
  change_role-gains v r org u h = stays_false _ (λ e.
      let p =
        change-gains _ _ (find_by_user v org.memberships) org u (λ m. refl)
          (found_by_user redacted v org.memberships) h e in
      let i : is_in u org ≡ true =
        found_in u p.0 org (found_by_user redacted v org.memberships p.0 p.1) p.2 p.3 in
      cc (i, h))

  pub deactivate-gains :
      (now v : ℕ) (org : Organization) (u : ℕ)
      → is_in u org ≡ false
      → is_in u (after org (deactivate redacted now v org)) ≡ false
  unfolding deactivate
  deactivate-gains now v org u h = stays_false _ (λ e.
      let p =
        change-gains _ _ (find_by_user v org.memberships) org u (λ m. refl)
          (found_by_user redacted v org.memberships) h e in
      not_left now p.3)

  pub reactivate-gains :
      (v : ℕ) (org : Organization) (u : ℕ)
      → is_in u org ≡ false
      → is_in u (after org (reactivate redacted v org)) ≡ true
      → v ≡ u
  unfolding reactivate
  reactivate-gains v org u h e =
      let p =
        change-gains _ _ (find_by_user v org.memberships) org u (λ m. refl)
          (found_by_user redacted v org.memberships) h e in
      sym (find-user v org.memberships p.0 p.1) ∙ p.2

  pub approve-gains :
      (v : ℕ) (org : Organization) (u : ℕ)
      → is_in u org ≡ false
      → is_in u (after org (approve redacted v org)) ≡ true
      → v ≡ u
  unfolding approve
  approve-gains v org u h e =
      join-gains org org _ _ (find_by_user v org.memberships) v u (λ m. refl) refl refl h h e

  transferred-gains :
      (v : ℕ) (org : Organization) (m : Membership) (u : ℕ)
      → find_by_user v org.memberships ≡ some m
      → active m.deactivated_at ≡ true
      → v ≢ org.owner_id
      → is_in u org ≡ false
      → is_in u (after org (transfer_ownership redacted v org)) ≡ false
  transferred-gains v org m u f a n h = stays_false _ (λ e.
      let f' = found_by_user redacted v org.memberships m f in
      let p =
        set-gains u (record m { role = admin }) (λ w. find_by_user w org.memberships) h
          (ap is_active (sym (find-replaced u (record m { role = admin }) m org.memberships f'))
            ∙ (sym (
                  ap (λ o. is_in u (after org o)) (transfer_saved redacted v org m f a n)
                  ∙ unfold after in refl)
                ∙ e)) in
      let i : is_in u org ≡ true = found_in u m org f' p.0 a in cc (i, h))

  pub transfer-gains :
      (v : ℕ) (o : Option Membership) (org : Organization) (u : ℕ)
      → find_by_user v org.memberships ≡ o
      → is_in u org ≡ false
      → is_in u (after org (transfer_ownership redacted v org)) ≡ false
  unfolding after
  transfer-gains v none org u f h =
      ap (λ o. is_in u (after org o)) (transfer_refused redacted v org (λ m g a. cc)) ∙ h
  transfer-gains v (some m) org u f h =
      let same : m.user_id ≡ v = find-user v org.memberships m f in
      elim (Bool-cases (active m.deactivated_at && not (m.user_id == org.owner_id))) [
        | inl b ↦ transferred-gains v org m u f (ground arith) (ground (arith, same)) h
        | inr b ↦
            ap (λ o. is_in u (after org o))
              (transfer_refused redacted v org
                (λ n g a. let e : some m ≡ some n = sym f ∙ g in ground (arith, e)))
            ∙ h
      ]

  pub accept_as-gains :
      (i : Invitation) (v : ℕ) (org : Organization) (u : ℕ)
      → is_in u org ≡ false
      → is_in u (after org (accept_as redacted same_email i v (find_by_user v org.memberships) org))
        ≡ true
      → v ≡ u
  unfolding accept_as
  accept_as-gains i v org u h e = elim (Bool-cases (is_active (find_by_user v org.memberships))) [
    | inl b ↦ absurd (unfold after in cc (rw b at e, h))
    | inr b ↦
        join-gains org (remove_invitation i.id org) _ _ (find_by_user v org.memberships) v u
          (λ m. refl) refl (unfold remove_invitation in refl) h (unfold remove_invitation in h)
          (rw b at e)
  ]
