-- ===== src/Scim/Leading.antt =====
-- What provisioning does to an organization: its owner, and members who were deactivated.
use moneygun.Base.{
  ℕ, ◌≡◌, refl, ap, ◌∙◌, Bool, true, ◌==◌, ==_iff, List, [], ◌∷◌, ◌++◌, Option, none, some, Text,
  arith, Bool-cases, inl, inr,
}
use moneygun.Members.{
  Role, Membership, Outcome, saved, refused, Error, active, find_by_user, update,
}
use moneygun.Members.Inviting.{invite}
use moneygun.Members.Owner.{IsLed, Saves, update-IsLed, has_admin-append, found_by_user}
use moneygun.SignIn.{User, find_user, find_by_email}
use moneygun.SignIn.Steps.{new_user}
use moneygun.Erasure.{redacted_in}
use moneygun.Sso.Resolution.{Place}
use moneygun.Scim.{
  Resource, needs_consent, address_is, member_with, is_blank, set_active, saved_as, row, append_row,
  add_row, returned, bring_back, provision_for, provision, upsert, ask_consent, requires_consent,
  create, deactivate_found, destroy, replace_found, replace, Event, creates, destroys, replaces,
  step, run,
}
use moneygun.Scim.Consent.{either_place, set_active-user}

abbrev Led : Place → Type 0
Led p = IsLed p.org

member_with-address :
    (e : Text) (us : List User) (ms : List Membership) (m : Membership)
    → member_with e us ms ≡ some m
    → address_is e (find_user m.user_id us) ≡ true
unfolding member_with
member_with-address e us [] m h = cc
member_with-address e us (n ∷ ns) m h = ground (arith, member_with-address e us ns m)

-- The membership that is found by the address is the one that is found by the user.
pub member_with-found :
    (e : Text) (us : List User) (ms : List Membership) (m : Membership)
    → member_with e us ms ≡ some m
    → find_by_user m.user_id ms ≡ some m
unfolding member_with find_by_user
member_with-found e us [] m h = cc
member_with-found e us (n ∷ ns) m h = elim (Bool-cases (address_is e (find_user n.user_id us))) [
  | inl b ↦ ground (arith, rw b at h)
  | inr b ↦
      let r : member_with e us ns ≡ some m = rw b at h in
      elim (Bool-cases (n.user_id == m.user_id)) [
        | inl c ↦ absurd (
            cc (
              b,
              member_with-address e us ns m r,
              ap (λ u. address_is e (find_user u us)) ((==_iff n.user_id m.user_id).0 c),
            ))
        | inr c ↦ rw c (member_with-found e us ns m r)
      ]
]

saved_as-Led :
    (m : Membership) (o : Outcome) (p : Place) → Saves IsLed o → Led p → Led (saved_as m o p).0
unfolding saved_as
saved_as-Led m (saved org) p s l = s
saved_as-Led m (refused f) p s l = l

append-Led :
    (es : List Error) (us : List User) (m : Membership) (p : Place)
    → Led p
    → Led (append_row es us m p).0
unfolding append_row
append-Led [] us m p l = has_admin-append p.org.owner_id p.org.memberships m l
append-Led (e ∷ es) us m p l = l

add-Led :
    (o : Option Membership) (us : List User) (m : Membership) (p : Place)
    → Led p
    → Led (add_row o us m p).0
unfolding add_row
add-Led (some n) us m p l = l
add-Led none us m p l = append-Led _ us m p l

found-Led :
    (was m : Membership) (p : Place)
    → find_by_user was.user_id p.org.memberships ≡ some was
    → m.user_id ≡ was.user_id
    → Led p
    → Led (saved_as m (update (redacted_in p.users) p.org was m) p).0
found-Led was m p f s l =
    saved_as-Led m _ p
      (update-IsLed (redacted_in p.users) p.org was m s
        (ap (λ u. find_by_user u p.org.memberships) s ∙ f) l)
      l

deactivated-Led :
    (now : ℕ) (o : Option Membership) (p : Place)
    → ((m : Membership) → o ≡ some m → find_by_user m.user_id p.org.memberships ≡ some m)
    → Led p
    → Led (deactivate_found now o p).0
unfolding deactivate_found
deactivated-Led now none p f l = l
deactivated-Led now (some m) p f l =
    either_place Led (active m.deactivated_at) _ _ (λ b. found-Led m _ p (f m refl) refl l) (λ b. l)

replaced-Led :
    (now : ℕ) (a : Option Bool) (o : Option Membership) (p : Place)
    → ((m : Membership) → o ≡ some m → find_by_user m.user_id p.org.memberships ≡ some m)
    → Led p
    → Led (replace_found now a o p).0
unfolding replace_found
replaced-Led now a none p f l = l
replaced-Led now a (some m) p f l = found-Led m _ p (f m refl) (set_active-user now a m) l

module _ (acceptable : Text → Bool) (valid : Text → Bool) where
  provision_for-Led :
      (now : ℕ) (role : Role) (i : ℕ) (r : Resource) (o : Option User) (p : Place)
      → Led p
      → Led (provision_for acceptable valid now role i r o p).0
  unfolding provision_for
  provision_for-Led now role i r (some x) p l =
      add-Led (find_by_user x.id p.org.memberships) p.users
        (set_active now r.active (row role x.id)) p l
  provision_for-Led now role i r none p l =
      either_place Led (acceptable r.user_name) _ _
        (λ b.
          add-Led (find_by_user i p.org.memberships) (p.users ++ new_user i r.user_name ∷ [])
            (set_active now r.active (row role i)) p l)
        (λ b. l)

  upsert-Led :
      (now : ℕ) (role : Role) (i : ℕ) (r : Resource) (o : Option Membership) (p : Place)
      → ((m : Membership) → o ≡ some m → find_by_user m.user_id p.org.memberships ≡ some m)
      → Led p
      → Led (upsert acceptable valid now role i r o p).0
  unfolding upsert provision bring_back
  upsert-Led now role i r none p f l =
      either_place Led (is_blank r.user_name) _ _ (λ b. l)
        (λ b. provision_for-Led now role i r (find_by_email r.user_name p.users) p l)
  upsert-Led now role i r (some m) p f l =
      either_place Led (active m.deactivated_at) _ _ (λ b. l)
        (λ b. found-Led m (returned m) p (f m refl) refl l)

  ask-Led :
      (now : ℕ) (role : Role) (k : ℕ) (e : Text) (p : Place)
      → Led p
      → Led (ask_consent acceptable valid now role k e p)
  unfolding ask_consent invite
  ask-Led now role k e p l = ground (arith, l)

  step-Led : (role : Role) (e : Event) (p : Place) → Led p → Led (step acceptable valid role e p)
  unfolding step create destroy replace
  step-Led role (creates now i k r) p l =
      either_place Led (requires_consent r p)
        (ask_consent acceptable valid now role k r.user_name p, needs_consent)
        (upsert acceptable valid now role i r (member_with r.user_name p.users p.org.memberships) p)
        (λ b. ask-Led now role k r.user_name p l)
        (λ b.
          upsert-Led now role i r (member_with r.user_name p.users p.org.memberships) p
            (member_with-found r.user_name p.users p.org.memberships) l)
  step-Led role (destroys now u) p l =
      deactivated-Led now (find_by_user u p.org.memberships) p
        (found_by_user (redacted_in p.users) u p.org.memberships) l
  step-Led role (replaces now u a) p l =
      replaced-Led now a (find_by_user u p.org.memberships) p
        (found_by_user (redacted_in p.users) u p.org.memberships) l

  -- Where the owner of an organization is one of its active admins, that is so after any requests of an
  -- identity provider.
  pub provisioned_owner_stays :
      (role : Role) (es : List Event) (p : Place)
      → IsLed p.org
      → IsLed (run acceptable valid role es p).org
  unfolding run
  provisioned_owner_stays role [] p l = l
  provisioned_owner_stays role (e ∷ es) p l =
      provisioned_owner_stays role es (step acceptable valid role e p) (step-Led role e p l)
