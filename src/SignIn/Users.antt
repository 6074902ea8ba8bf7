-- ===== src/SignIn/Users.antt =====
-- What holds of the row of a user, and which users are banned.
use moneygun.Base.{ℕ, ◌≡◌, Bool, true, false, ◌==◌, List, [], ◌∷◌, ◌++◌, some, if◌then◌else◌, arith}
use moneygun.SignIn.{User, find_user, update_user}
use moneygun.SignIn.Gains.{find_user-id}

-- There is a row, and `p` holds of it.
abbrev pub holds_in : (User → Bool) → ℕ → List User → Bool
holds_in p u [] = false
holds_in p u (v ∷ vs) = if v.id == u then p v else holds_in p u vs

abbrev pub is_banned : User → Bool
is_banned v = v.banned

abbrev pub banned_in : ℕ → List User → Bool
banned_in u us = holds_in is_banned u us

module _ (p : User → Bool) where
  pub holds-update :
      (u i : ℕ) (f : User → User) (us : List User)
      → ((v : User) → (f v).id ≡ v.id)
      → ((v : User) → v.id ≡ u → v.id ≡ i → p v ≡ true → p (f v) ≡ true)
      → holds_in p u us ≡ true
      → holds_in p u (update_user i f us) ≡ true
  unfolding update_user
  holds-update u i f [] q r h = cc
  holds-update u i f (v ∷ vs) q r h = ground (arith, holds-update u i f vs q r, q v, r v)

  pub holds-append :
      (u : ℕ) (us vs : List User) → holds_in p u us ≡ true → holds_in p u (us ++ vs) ≡ true
  holds-append u [] vs h = cc
  holds-append u (v ∷ us) vs h = ground (arith, holds-append u us vs)

  pub found_holds :
      (u i : ℕ) (us : List User) (x : User)
      → find_user i us ≡ some x
      → x.id ≡ u
      → holds_in p u us ≡ true
      → p x ≡ true
  unfolding find_user
  found_holds u i [] x f e h = cc
  found_holds u i (v ∷ vs) x f e h = ground (arith, found_holds u i vs x, find_user-id i vs x)

  -- The row of a user who is found gets what `p` holds of.
  pub update-holds :
      (u : ℕ) (f : User → User) (us : List User) (x : User)
      → ((v : User) → (f v).id ≡ v.id)
      → ((v : User) → p (f v) ≡ true)
      → find_user u us ≡ some x
      → holds_in p u (update_user u f us) ≡ true
  unfolding find_user update_user
  update-holds u f [] x q r h = cc
  update-holds u f (v ∷ vs) x q r h = ground (arith, update-holds u f vs x q r, q v, r v)

pub find-updated :
    (u : ℕ) (us : List User) (x : User)
    → find_user u us ≡ some x
    → find_user u (update_user u (λ v. record v { banned = true }) us)
      ≡ some (record x { banned = true })
unfolding find_user update_user
find-updated u [] x f = cc
find-updated u (v ∷ vs) x f = ground (arith, find-updated u vs x)
