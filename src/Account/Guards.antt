-- ===== src/Account/Guards.antt =====
-- What the row of a user shows, and whose row an action finds.
use moneygun.Base.{
  ℕ, ◌≡◌, refl, Bool, true, false, ◌==◌, List, [], ◌∷◌, Option, none, some, arith, if◌then◌else◌,
}
use moneygun.SignIn.{User, update_user}
use moneygun.Account.{Desk, with_user}

module _ {A : Type 0} (g : User → A) where
  -- What `g` is of the row of a user.
  abbrev pub value_of : ℕ → List User → Option A
  value_of u [] = none
  value_of u (v ∷ vs) = if v.id == u then some (g v) else value_of u vs

  -- The row of another user stays.
  pub value_of-other :
      (u i : ℕ) (f : User → User) (us : List User)
      → (i == u) ≡ false
      → ((v : User) → (f v).id ≡ v.id)
      → value_of u (update_user i f us) ≡ value_of u us
  unfolding update_user
  value_of-other u i f [] h q = refl
  value_of-other u i f (v ∷ vs) h q = ground (arith, value_of-other u i f vs h q, q v)

pub with_user-has :
    (P : Desk → Type 0) (o : Option User) (k : User → Desk → Desk) (d : Desk)
    → P d
    → ((x : User) → o ≡ some x → P (k x d))
    → P (with_user o k d)
unfolding with_user
with_user-has P none k d h q = h
with_user-has P (some x) k d h q = q x refl

pub if_has :
    (P : Desk → Type 0) (b : Bool) (d d' : Desk)
    → (b ≡ true → P d)
    → (b ≡ false → P d')
    → P (if b then d else d')
if_has P true d d' h k = h refl
if_has P false d d' h k = k refl
