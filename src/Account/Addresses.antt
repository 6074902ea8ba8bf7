-- ===== src/Account/Addresses.antt =====
-- The addresses of the users: no two users have the same.
use moneygun.Base.{
  ℕ, ◌≡◌, refl, ap, sym, ◌∙◌, Bool, true, false, ◌||◌, ◌==◌, ==_iff, List, [], ◌∷◌, Option, Text,
  text_eq, text_eq-sym, arith, Bool-cases, inl, inr,
}
use mathlib.Core.Path.{subst}
use moneygun.TwoFactor.{Factor}
use moneygun.SignIn.{User, update_user}
use moneygun.Account.{Desk, address_taken, taken_by_other}
use moneygun.Account.Steps.{
  Event, signs_in, signs_out, asks_sudo, resends_sudo, confirms_sudo, asks_email, confirms_email,
  opens_factor, enrols, disables, step, run,
}
use moneygun.Account.Edits.{Edit, step-Edits}

abbrev pub id_taken : ℕ → List User → Bool
id_taken u [] = false
id_taken u (v ∷ vs) = v.id == u || id_taken u vs

-- No two rows share their number or their address.
abbrev pub AreApart : List User → Type 0
AreApart [] = Unit
AreApart (v ∷ vs) = (id_taken v.id vs ≡ false) × (address_taken v.email vs ≡ false) × AreApart vs

id_taken-update :
    (u i : ℕ) (f : User → User) (us : List User)
    → ((v : User) → (f v).id ≡ v.id)
    → id_taken u (update_user i f us) ≡ id_taken u us
unfolding update_user
id_taken-update u i f [] q = refl
id_taken-update u i f (v ∷ vs) q = ground (arith, q v, id_taken-update u i f vs q)

address_taken-update :
    (e : Text) (i : ℕ) (f : User → User) (us : List User)
    → ((v : User) → v.id ≡ i → text_eq (f v).email e ≡ true → text_eq v.email e ≡ true)
    → address_taken e us ≡ false
    → address_taken e (update_user i f us) ≡ false
unfolding update_user address_taken
address_taken-update e i f [] q h = refl
address_taken-update e i f (v ∷ vs) q h = ground (arith, q v, address_taken-update e i f vs q)

kept-AreApart :
    (i : ℕ) (f : User → User) (us : List User)
    → ((v : User) → (f v).id ≡ v.id)
    → ((v : User) → (f v).email ≡ v.email)
    → AreApart us
    → AreApart (update_user i f us)
unfolding update_user
kept-AreApart i f [] q r h = tt
kept-AreApart i f (v ∷ vs) q r (a, b, c) = elim (Bool-cases (v.id == i)) [
  | inl e ↦ rw e (ap (λ j. id_taken j vs) (q v) ∙ a, ap (λ t. address_taken t vs) (r v) ∙ b, c)
  | inr e ↦ rw e (
    id_taken-update v.id i f vs q ∙ a,
    address_taken-update v.email i f vs (λ x s h. ap (λ t. text_eq t v.email) (sym (r x)) ∙ h) b,
    kept-AreApart i f vs q r c,
  )
]

free :
    (i : ℕ) (e : Text) (us : List User)
    → id_taken i us ≡ false
    → taken_by_other i e us ≡ false
    → address_taken e us ≡ false
unfolding taken_by_other address_taken
free i e [] h k = refl
free i e (v ∷ vs) h k = ground (arith, free i e vs)

moved-AreApart :
    (i : ℕ) (e : Text) (f : User → User) (us : List User)
    → ((v : User) → (f v).id ≡ v.id)
    → ((v : User) → (f v).email ≡ e)
    → taken_by_other i e us ≡ false
    → AreApart us
    → AreApart (update_user i f us)
unfolding update_user taken_by_other
moved-AreApart i e f [] q r t h = tt
moved-AreApart i e f (v ∷ vs) q r t (a, b, c) = elim (Bool-cases (v.id == i)) [
  | inl s ↦ rw s (
    ap (λ j. id_taken j vs) (q v) ∙ a,
    ap (λ y. address_taken y vs) (r v)
        ∙ free i e vs (ap (λ j. id_taken j vs) (sym ((==_iff v.id i).0 s)) ∙ a) (ground arith),
    c,
  )
  | inr s ↦ rw s (
    id_taken-update v.id i f vs q ∙ a,
    address_taken-update v.email i f vs
        (λ x g h. absurd (
          ground (arith, s, t, text_eq-sym e v.email, ap (λ y. text_eq y v.email) (sym (r x)) ∙ h)))
        b,
    moved-AreApart i e f vs q r (ground arith) c,
  )
]

factor-AreApart :
    (i : ℕ) (r : Factor) (f : User → User) (us : List User)
    → f ≡ (λ v. record v { factor = r })
    → AreApart us
    → AreApart (update_user i f us)
factor-AreApart i r f us h k =
    kept-AreApart i f us (λ v. ap (λ g. (g v).id) h) (λ v. ap (λ g. (g v).email) h) k

module _ (acceptable : Text → Bool) (fits : ℕ → Option Text → Text → Bool) where
  Edit-AreApart :
      (e : Event) (x : User) (f : User → User) (d : Desk)
      → Edit acceptable fits e x d f
      → AreApart d.world.users
      → AreApart (update_user x.id f d.world.users)
  Edit-AreApart (confirms_sudo now typed) x f d h k = factor-AreApart x.id _ f d.world.users h k
  Edit-AreApart (confirms_email now typed) x f d (e, l, h, p, a, t, n, y) k =
      moved-AreApart x.id e f d.world.users (λ v. ap (λ g. (g v).id) h)
        (λ v. ap (λ g. (g v).email) h) t k
  Edit-AreApart (enrols now typed codes) x f d (s, h, a, p, t) k =
      factor-AreApart x.id _ f d.world.users h k
  Edit-AreApart (disables now typed) x f d (inl (h, r)) k =
      factor-AreApart x.id _ f d.world.users h k
  Edit-AreApart (disables now typed) x f d (inr (h, r)) k =
      factor-AreApart x.id _ f d.world.users h k
  Edit-AreApart (signs_in now token u) x f d h k = absurd h
  Edit-AreApart (signs_out now) x f d h k = absurd h
  Edit-AreApart (asks_sudo now code) x f d h k = absurd h
  Edit-AreApart (resends_sudo now code) x f d h k = absurd h
  Edit-AreApart (asks_email now e code) x f d h k = absurd h
  Edit-AreApart (opens_factor now secret) x f d h k = absurd h

  step-AreApart :
      (e : Event) (d : Desk)
      → AreApart d.world.users
      → AreApart (step acceptable fits e d).world.users
  step-AreApart e d k = elim (step-Edits acceptable fits e d) [
    | inl h ↦ subst AreApart (sym h) k
    | inr (x, f, c, u, h) ↦ subst AreApart (sym u) (Edit-AreApart e x f d h k)
  ]

  -- Whatever happens to the accounts, no two users get the same address: where no two rows share their
  -- number or their address, that is so after any events.
  pub run-AreApart :
      (es : List Event) (d : Desk)
      → AreApart d.world.users
      → AreApart (run acceptable fits es d).world.users
  unfolding run
  run-AreApart [] d k = k
  run-AreApart (e ∷ es) d k = run-AreApart es (step acceptable fits e d) (step-AreApart e d k)
