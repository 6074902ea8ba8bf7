-- ===== src/Members/Returns.antt =====
-- What a removal and a return leave of a membership.
use moneygun.Base.{
  ℕ, ◌≡◌, ap, refl, ◌∙◌, sym, ◌≢◌, Bool, true, false, List, [], ◌∷◌, none, some, arith,
}
use moneygun.Members.{
  saved, Membership, Organization, find_by_user, replace, errors, save_if, Error, update, approve,
  join, deactivate, may_destroy, is_owner,
}
use moneygun.Members.Actions.{after}
use moneygun.Members.Owner.{IsLed, find-user}
use moneygun.Members.Permissions.{removal_saved}
use moneygun.Members.Refinement.{find-replaced}

saved_rows :
    (ms : List Membership) (org new : Organization)
    → saved (record org { memberships = ms }) ≡ saved new
    → new.memberships ≡ ms
saved_rows ms org new e =
    let g : record org { memberships = ms } ≡ new = cc e in ap (λ o. o.memberships) (sym g)

module _ (redacted : ℕ → Bool) where
  may_leave :
      (m : Membership) (org : Organization) → m.user_id ≢ org.owner_id → may_destroy m org m ≡ true
  unfolding may_destroy is_owner
  may_leave m org n = ground (arith, n)

  pub replaced_self :
      (u : ℕ) (m was : Membership) (ms : List Membership)
      → m.user_id ≡ u
      → find_by_user u ms ≡ some was
      → find_by_user u (replace m ms) ≡ some m
  replaced_self u m was ms e f =
      find-replaced u m was ms (ap (λ v. find_by_user v ms) e ∙ f) ∙ ground (arith, e)

  -- A member who is not the owner can be removed, and the membership is kept, but not active.
  pub find-deactivate :
      (now u : ℕ) (m : Membership) (org : Organization)
      → IsLed org
      → find_by_user u org.memberships ≡ some m
      → u ≢ org.owner_id
      → find_by_user u (after org (deactivate redacted now u org)).memberships
        ≡ some (record m { deactivated_at = some now })
  find-deactivate now u m org l f n =
      let e = find-user u org.memberships m f in
      ap (λ o. find_by_user u (after org o).memberships)
        (removal_saved redacted m m org u now l f (may_leave m org (λ q. n (sym e ∙ q))))
      ∙ unfold after in
        replaced_self u (record m { deactivated_at = some now }) m org.memberships e f

  no_errors :
      (m : Membership) (org : Organization)
      → redacted m.user_id ≡ false
      → errors redacted org m (record m { deactivated_at = none }) ≡ []
  unfolding errors
  no_errors m org h = ground arith

  -- Who comes back has the membership of before.
  pub find-approve :
      (u : ℕ) (m : Membership) (org : Organization)
      → find_by_user u org.memberships ≡ some m
      → redacted u ≡ false
      → find_by_user u (after org (approve redacted u org)).memberships
        ≡ some (record m { deactivated_at = none })
  unfolding approve join update save_if after
  find-approve u m org f h =
      let e = find-user u org.memberships m f in
      rw (f, no_errors m org (ap redacted e ∙ h))
        (replaced_self u (record m { deactivated_at = none }) m org.memberships e f)

  saved-find :
      (es : List Error) (org new : Organization) (was m : Membership)
      → save_if redacted es org m ≡ saved new
      → find_by_user m.user_id org.memberships ≡ some was
      → find_by_user m.user_id new.memberships ≡ some m
  unfolding save_if
  saved-find [] org new was m e f =
      ap (find_by_user m.user_id) (saved_rows (replace m org.memberships) org new e)
      ∙ replaced_self m.user_id m was org.memberships refl f
  saved-find (x ∷ es) org new was m e f = cc

  -- An update that is saved is found.
  pub update-find :
      (org new : Organization) (was m : Membership)
      → update redacted org was m ≡ saved new
      → find_by_user m.user_id org.memberships ≡ some was
      → find_by_user m.user_id new.memberships ≡ some m
  unfolding update
  update-find org new was m e f = saved-find (errors redacted org was m) org new was m e f
