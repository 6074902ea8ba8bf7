-- ===== src/Scim/Consent.antt =====
-- Whom an identity provider makes a member.
use moneygun.Base.{
  ℕ, ◌≡◌, refl, ap, ◌∙◌, ◌⊎◌, Bool, true, false, ◌==◌, ==_iff, List, [], ◌∷◌, ◌++◌, Option, none,
  some, Text, arith, Bool-cases, inl, inr, if◌then◌else◌,
}
use moneygun.Members.{Role, Membership, Outcome, saved, refused, Error, active, find_by_user}
use moneygun.Members.Inviting.{invite}
use moneygun.Members.Owner.{Saves}
use moneygun.Members.Uniqueness.{has_row, has_row-append, update-has_row}
use moneygun.SignIn.{User, find_user, find_by_email}
use moneygun.Erasure.{redacted_in}
use moneygun.Sso.Resolution.{Place}
use moneygun.Scim.{
  Resource, Answer, is_some, is_blank, set_active, saved_as, row, append_row, add_row, returned,
  bring_back, provision_for, provision, upsert, ask_consent, requires_consent, create,
  deactivate_found, destroy, replace_found, replace, Event, creates, destroys, replaces, step, run,
}

-- A user who is there and has no membership, active or not.
record IsOutside (u : ℕ) (x : User) (p : Place) : Type 0 where
  there : find_user u p.users ≡ some x
  no_row : has_row u p.org.memberships ≡ false

-- The number for a new user is not in use.
abbrev pub IsFresh : Event → Place → Type 0
IsFresh (creates now i k r) p = find_user i p.users ≡ none
IsFresh _ p = Unit

found-append :
    (u : ℕ) (us vs : List User) (x : User)
    → find_user u us ≡ some x
    → find_user u (us ++ vs) ≡ some x
unfolding find_user
found-append u [] vs x h = cc
found-append u (v ∷ us) vs x h = ground (arith, found-append u us vs x)

saved_as-IsOutside :
    (u : ℕ) (x : User) (m : Membership) (o : Outcome) (p : Place)
    → Saves (λ new. has_row u new.memberships ≡ has_row u p.org.memberships) o
    → IsOutside u x p
    → IsOutside u x (saved_as m o p).0
unfolding saved_as
saved_as-IsOutside u x m (saved org) p s v = record { there = v.there; no_row = s ∙ v.no_row }
saved_as-IsOutside u x m (refused f) p s v = v

pub set_active-user :
    (now : ℕ) (a : Option Bool) (m : Membership) → (set_active now a m).user_id ≡ m.user_id
unfolding set_active
set_active-user now none m = refl
set_active-user now (some true) m = refl
set_active-user now (some false) m = ground arith

append-IsOutside :
    (u : ℕ) (x : User) (es : List Error) (us : List User) (m : Membership) (p : Place)
    → find_user u us ≡ some x
    → (m.user_id == u) ≡ false
    → IsOutside u x p
    → IsOutside u x (append_row es us m p).0
unfolding append_row
append-IsOutside u x [] us m p f n v = record {
  there = f;
  no_row = ground (arith, has_row-append u p.org.memberships m, v.no_row, n);
}
append-IsOutside u x (e ∷ es) us m p f n v = v

add-IsOutside :
    (u : ℕ) (x : User) (o : Option Membership) (us : List User) (m : Membership) (p : Place)
    → find_user u us ≡ some x
    → (m.user_id == u) ≡ false
    → IsOutside u x p
    → IsOutside u x (add_row o us m p).0
unfolding add_row
add-IsOutside u x (some n) us m p f q v = v
add-IsOutside u x none us m p f q v = append-IsOutside u x _ us m p f q v

-- A number that is not in use is not that of a user who is there.
not_mine :
    (u i : ℕ) (us : List User) (x : User)
    → find_user u us ≡ some x
    → find_user i us ≡ none
    → (i == u) ≡ false
not_mine u i us x f g = elim (Bool-cases (i == u)) [
  | inl e ↦ absurd (cc (ap (λ v. find_user v us) ((==_iff i u).0 e), f, g))
  | inr e ↦ e
]

pub either_place :
    (P : Place → Type 0) (b : Bool) (r s : Place × Answer)
    → (b ≡ true → P r.0)
    → (b ≡ false → P s.0)
    → P (if b then r else s).0
either_place P true r s h k = h refl
either_place P false r s h k = k refl

destroyed-IsOutside :
    (u : ℕ) (x : User) (now : ℕ) (o : Option Membership) (p : Place)
    → IsOutside u x p
    → IsOutside u x (deactivate_found now o p).0
unfolding deactivate_found
destroyed-IsOutside u x now none p v = v
destroyed-IsOutside u x now (some m) p v =
    either_place (IsOutside u x) (active m.deactivated_at) _ _
      (λ b. saved_as-IsOutside u x _ _ p (update-has_row (redacted_in p.users) p.org m _ u) v)
      (λ b. v)

replaced-IsOutside :
    (u : ℕ) (x : User) (now : ℕ) (a : Option Bool) (o : Option Membership) (p : Place)
    → IsOutside u x p
    → IsOutside u x (replace_found now a o p).0
unfolding replace_found
replaced-IsOutside u x now a none p v = v
replaced-IsOutside u x now a (some m) p v =
    saved_as-IsOutside u x (set_active now a m) _ p
      (update-has_row (redacted_in p.users) p.org m (set_active now a m) u) v

new_address :
    {A : Type 0}
    → (b : Bool) (o : Option A) → (b ≡ false → is_some o ≡ true → false ≡ true)
    → (b ≡ true) ⊎ (o ≡ none)
unfolding is_some
new_address true o q = inl refl
new_address false none q = inr refl
new_address false (some x) q = absurd (cc (q refl refl))

module _ (acceptable : Text → Bool) (valid : Text → Bool) where
  provision_for-IsOutside :
      (u : ℕ) (x : User) (now : ℕ) (role : Role) (i : ℕ) (r : Resource) (o : Option User)
      (p : Place)
      → find_user i p.users ≡ none
      → o ≡ none
      → IsOutside u x p
      → IsOutside u x (provision_for acceptable valid now role i r o p).0
  unfolding provision_for row
  provision_for-IsOutside u x now role i r (some y) p f n v = cc
  provision_for-IsOutside u x now role i r none p f n v =
      either_place (IsOutside u x) (acceptable r.user_name) _ _
        (λ b.
          add-IsOutside u x _ _ _ p (found-append u p.users _ x v.there)
            (ap (λ j. j == u) (set_active-user now r.active (row role i))
              ∙ not_mine u i p.users x v.there f)
            v)
        (λ b. v)

  provision-IsOutside :
      (u : ℕ) (x : User) (now : ℕ) (role : Role) (i : ℕ) (r : Resource) (p : Place)
      → find_user i p.users ≡ none
      → (is_blank r.user_name ≡ true) ⊎ (find_by_email r.user_name p.users ≡ none)
      → IsOutside u x p
      → IsOutside u x (provision acceptable valid now role i r p).0
  unfolding provision
  provision-IsOutside u x now role i r p f (inl b) v =
      either_place (IsOutside u x) (is_blank r.user_name) _ _ (λ c. v) (λ c. absurd (cc (b, c)))
  provision-IsOutside u x now role i r p f (inr n) v =
      either_place (IsOutside u x) (is_blank r.user_name) _ _ (λ b. v)
        (λ b. provision_for-IsOutside u x now role i r (find_by_email r.user_name p.users) p f n v)

  upsert-IsOutside :
      (u : ℕ) (x : User) (now : ℕ) (role : Role) (i : ℕ) (r : Resource) (o : Option Membership)
      (p : Place)
      → find_user i p.users ≡ none
      → (is_blank r.user_name ≡ false
          → is_some (find_by_email r.user_name p.users) ≡ true
          → is_some o ≡ true)
      → IsOutside u x p
      → IsOutside u x (upsert acceptable valid now role i r o p).0
  unfolding upsert bring_back is_some
  upsert-IsOutside u x now role i r none p f q v =
      provision-IsOutside u x now role i r p f (new_address (is_blank r.user_name) _ q) v
  upsert-IsOutside u x now role i r (some m) p f q v =
      either_place (IsOutside u x) (active m.deactivated_at) _ _ (λ b. v)
        (λ b.
          saved_as-IsOutside u x (returned m) _ p
            (update-has_row (redacted_in p.users) p.org m (returned m) u) v)

  ask-IsOutside :
      (u : ℕ) (x : User) (now : ℕ) (role : Role) (k : ℕ) (e : Text) (p : Place)
      → IsOutside u x p
      → IsOutside u x (ask_consent acceptable valid now role k e p)
  unfolding ask_consent invite
  ask-IsOutside u x now role k e p v = record {
    there = ground (arith, v.there);
    no_row = ground (arith, v.no_row);
  }

  create-IsOutside :
      (u : ℕ) (x : User) (now : ℕ) (role : Role) (i k : ℕ) (r : Resource) (p : Place)
      → find_user i p.users ≡ none
      → IsOutside u x p
      → IsOutside u x (create acceptable valid now role i k r p).0
  unfolding create requires_consent
  create-IsOutside u x now role i k r p f v =
      either_place (IsOutside u x) (requires_consent r p)
        (ask_consent acceptable valid now role k r.user_name p, _) _
        (λ b. ask-IsOutside u x now role k r.user_name p v)
        (λ b. upsert-IsOutside u x now role i r _ p f (λ c d. ground (arith, b, c, d)) v)

  step-IsOutside :
      (role : Role) (e : Event) (u : ℕ) (x : User) (p : Place)
      → IsFresh e p
      → IsOutside u x p
      → IsOutside u x (step acceptable valid role e p)
  unfolding step destroy replace
  step-IsOutside role (creates now i k r) u x p f v = create-IsOutside u x now role i k r p f v
  step-IsOutside role (destroys now j) u x p f v =
      destroyed-IsOutside u x now (find_by_user j p.org.memberships) p v
  step-IsOutside role (replaces now j a) u x p f v =
      replaced-IsOutside u x now a (find_by_user j p.org.memberships) p v

  -- The numbers for new users are not in use when they are taken.
  abbrev pub AreFresh : Role → List Event → Place → Type 0
  AreFresh role [] p = Unit
  AreFresh role (e ∷ es) p = IsFresh e p × AreFresh role es (step acceptable valid role e p)

  -- An identity provider makes nobody a member who was a user before and had no membership: whatever
  -- it asks for, the user has none, where the numbers for new users are not in use.
  pub run_needs_consent :
      (role : Role) (es : List Event) (u : ℕ) (x : User) (p : Place)
      → AreFresh role es p
      → find_user u p.users ≡ some x
      → has_row u p.org.memberships ≡ false
      → has_row u (run acceptable valid role es p).org.memberships ≡ false
  unfolding run
  run_needs_consent role [] u x p f t n = n
  run_needs_consent role (e ∷ es) u x p f t n =
      let v = step-IsOutside role e u x p f.0 (record { there = t; no_row = n }) in
      run_needs_consent role es u x (step acceptable valid role e p) f.1 v.there v.no_row
