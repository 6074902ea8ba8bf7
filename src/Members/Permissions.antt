-- ===== src/Members/Permissions.antt =====
-- What the policy of memberships allows, and the validations accept.
use moneygun.Base.{ℕ, ◌≡◌, refl, ◌≢◌, Bool, true, false, List, [], ◌∷◌, Option, none, some, arith}
use moneygun.Members.{
  Role, Membership, Organization, saved, refused, invalid, save_if, active, find_by_user, replace,
  other_active_admin, errors, update, change_role, deactivate, reactivating, same_time, change,
  cannot_deactivate_owner, may_update, may_destroy, not_found,
}
use moneygun.Members.Owner.{has_admin, IsLed, find-user}

pub other_admin :
    (o u : ℕ) (ms : List Membership)
    → o ≢ u
    → has_admin o ms ≡ true
    → other_active_admin u ms ≡ true
unfolding other_active_admin
other_admin o u [] n h = cc
other_admin o u (m ∷ ms) n h = ground (arith, other_admin o u ms)

module _ (redacted : ℕ → Bool) where
  -- With an owner who is an active admin, only the owner's membership and that of a redacted user
  -- can fail the validations.
  errors_none :
      (org : Organization) (was m : Membership)
      → IsLed org
      → m.user_id ≢ org.owner_id
      → reactivating was m ≡ false
      → errors redacted org was m ≡ []
  unfolding errors
  errors_none org was m l n r =
      ground (arith, other_admin org.owner_id m.user_id org.memberships (λ e. ground arith) l)

  not_owner :
      (current : Membership) (org : Organization) (m : Membership)
      → may_update current org m ≡ true
      → m.user_id ≢ org.owner_id
  unfolding may_update
  not_owner current org m p e = ground arith

  destroy_not_owner :
      (current : Membership) (org : Organization) (m : Membership)
      → may_destroy current org m ≡ true
      → m.user_id ≢ org.owner_id
  unfolding may_destroy
  destroy_not_owner current org m p e = ground arith

  same_time_refl : (t : Option ℕ) → same_time t t ≡ true
  unfolding same_time
  same_time_refl none = refl
  same_time_refl (some t) = ground arith

  role_not_reactivating :
      (m : Membership) (role : Role) → reactivating m (record m { role = role }) ≡ false
  unfolding reactivating
  role_not_reactivating m role = ground (arith, same_time_refl m.deactivated_at)

  deactivated_not_reactivating :
      (m : Membership) (now : ℕ) → reactivating m (record m { deactivated_at = some now }) ≡ false
  unfolding reactivating active
  deactivated_not_reactivating m now = ground arith

  deactivate_refused :
      (now : ℕ) (org : Organization) (m : Membership)
      → find_by_user org.owner_id org.memberships ≡ some m
      → m.user_id ≡ org.owner_id
      → active m.deactivated_at ≡ true
      → deactivate redacted now org.owner_id org ≡ refused (invalid (cannot_deactivate_owner ∷ []))
  unfolding deactivate change update save_if errors
  deactivate_refused now org m f e a = rw f (ground (arith, e, a))

  update_saved :
      (org : Organization) (was m : Membership)
      → errors redacted org was m ≡ []
      → update redacted org was m ≡ saved (record org { memberships = replace m org.memberships })
  unfolding update save_if
  update_saved org was m e = rw e refl

  change_saved :
      (f : Membership → Membership) (u : ℕ) (org : Organization) (m : Membership)
      → find_by_user u org.memberships ≡ some m
      → errors redacted org m (f m) ≡ []
      → change redacted f not_found (find_by_user u org.memberships) org
        ≡ saved (record org { memberships = replace (f m) org.memberships })
  unfolding change
  change_saved f u org m g e = rw g (update_saved org m (f m) e)

  -- Where the owner is an active admin, a change of role that the policy allows is saved.
  pub role_change_saved :
      (current m : Membership) (org : Organization) (u : ℕ) (role : Role)
      → IsLed org
      → find_by_user u org.memberships ≡ some m
      → may_update current org m ≡ true
      → change_role redacted u role org
        ≡ saved (record org { memberships = replace (record m { role = role }) org.memberships })
  unfolding change_role
  role_change_saved current m org u role l f p =
      change_saved (λ n. record n { role = role }) u org m f
        (errors_none org m (record m { role = role }) l (not_owner current org m p)
          (role_not_reactivating m role))

  -- Where the owner is an active admin, a removal that the policy allows is saved, also that of the
  -- current user by themselves.
  pub removal_saved :
      (current m : Membership) (org : Organization) (u now : ℕ)
      → IsLed org
      → find_by_user u org.memberships ≡ some m
      → may_destroy current org m ≡ true
      → deactivate redacted now u org
        ≡ saved (record org {
          memberships = replace (record m { deactivated_at = some now }) org.memberships;
        })
  unfolding deactivate
  removal_saved current m org u now l f p =
      change_saved (λ n. record n { deactivated_at = some now }) u org m f
        (errors_none org m (record m { deactivated_at = some now }) l
          (destroy_not_owner current org m p) (deactivated_not_reactivating m now))

  -- Nobody may remove the owner, and the validations refuse it too.
  pub owner_removal_refused :
      (current m : Membership) (org : Organization) (now : ℕ)
      → find_by_user org.owner_id org.memberships ≡ some m
      → active m.deactivated_at ≡ true
      → (may_destroy current org m ≡ false)
        × (deactivate redacted now org.owner_id org
            ≡ refused (invalid (cannot_deactivate_owner ∷ [])))
  unfolding may_destroy
  owner_removal_refused current m org now f a =
      let e = find-user org.owner_id org.memberships m f in
      (ground (arith, e), deactivate_refused now org m f e a)
