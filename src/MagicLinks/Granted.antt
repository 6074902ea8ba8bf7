-- ===== src/MagicLinks/Granted.antt =====
-- What a link is that an attempt is granted.
use moneygun.Base.{
  ℕ, ◌≡◌, refl, ◌∙◌, true, ◌==◌, ==_iff, List, [], ◌∷◌, Option, none, some, Text, leb, text_eq_iff,
  ap, arith, sym, ◌≤◌, ◌⊎◌, inl, inr, Bool-cases,
}
use mathlib.Core.Path.{subst}
use mathlib.Core.List.{Mem, mem-cons_self, mem-cons_of_mem}
use moneygun.MagicLinks.{
  Purpose, sign_in, sign_up, Link, Attempt, sanitize, same_purpose, one_of, in_purposes,
  has_new_email, matches, find_link, consume_found, consume,
}
use moneygun.MagicLinks.Once.{find-matches, matches-code}

-- What asks for a code of the user.
unfoldable pub code_of : ℕ → ℕ → Text → Purpose → Option Text → Attempt
code_of now u typed p new_email = record {
  now = now;
  owns = λ i. i == u;
  code = typed;
  purposes = some (p ∷ []);
  new_email = new_email;
}

-- A live link of the user, for the purpose and with the code that was typed.
abbrev pub Proves : ℕ → ℕ → Text → Purpose → Link → Type 0
Proves now u typed p l =
    (l.user_id ≡ u)
    × (same_purpose l.purpose p ≡ true)
    × (leb now l.expires_at ≡ true)
    × (sanitize typed ≡ some l.code)

found_matches :
    (a : Attempt) (o : Option Link) (ls : List Link) (l : Link)
    → find_link a ls ≡ o
    → (consume_found o ls).1 ≡ some l
    → matches a l ≡ true
unfolding consume_found
found_matches a none ls l f h = cc
found_matches a (some m) ls l f h = find-matches a ls l (f ∙ h)

pub granted-Proves :
    (now u : ℕ) (typed : Text) (p : Purpose) (e : Option Text) (ls : List Link) (l : Link)
    → (consume (code_of now u typed p e) ls).1 ≡ some l
    → Proves now u typed p l
unfolding consume matches in_purposes one_of code_of
granted-Proves now u typed p e ls l h =
    let m = found_matches (code_of now u typed p e) _ ls l refl h in
    (
      ground (arith, m, ==_iff l.user_id u),
      ground (arith, m),
      ground (arith, m),
      matches-code (code_of now u typed p e) l m,
    )

new_email-eq :
    (c : ℕ) (cs : Text) (o : Option Text)
    → has_new_email (some (c ∷ cs)) o ≡ true
    → o ≡ some (c ∷ cs)
unfolding has_new_email
new_email-eq c cs none h = cc
new_email-eq c cs (some e) h = ap some ((text_eq_iff e (c ∷ cs)).0 h)

pub granted_new_email :
    (now u : ℕ) (typed : Text) (p : Purpose) (c : ℕ) (cs : Text) (ls : List Link) (l : Link)
    → (consume (code_of now u typed p (some (c ∷ cs))) ls).1 ≡ some l
    → l.new_email ≡ some (c ∷ cs)
unfolding consume matches code_of
granted_new_email now u typed p c cs ls l h =
    let m = found_matches (code_of now u typed p (some (c ∷ cs))) _ ls l refl h in
    new_email-eq c cs l.new_email (ground (arith, m))

found-Mem : (a : Attempt) (ls : List Link) (l : Link) → find_link a ls ≡ some l → Mem l ls
unfolding find_link
found-Mem a [] l h = cc
found-Mem a (m ∷ ms) l h = elim (Bool-cases (matches a m)) [
  | inl b ↦ let e : m ≡ l = ground (arith, rw b at h) in subst (λ k. Mem k (m ∷ ms)) e mem-cons_self
  | inr b ↦ mem-cons_of_mem m (found-Mem a ms l (rw b at h))
]

-- What is consumed is in the table.
consumed-Mem :
    (a : Attempt) (o : Option Link) (ls : List Link) (l : Link)
    → find_link a ls ≡ o
    → (consume_found o ls).1 ≡ some l
    → Mem l ls
unfolding consume_found
consumed-Mem a none ls l f h = cc
consumed-Mem a (some m) ls l f h = found-Mem a ls l (f ∙ h)

-- A live link for signing in or up, with the code that was typed.
abbrev pub SignsIn : ℕ → Text → List Link → Link → Type 0
SignsIn now typed ls l =
    Mem l ls
    × ((l.purpose ≡ sign_in) ⊎ (l.purpose ≡ sign_up))
    × (now ≤ l.expires_at)
    × (sanitize typed ≡ some l.code)

signs_in-purpose :
    (p : Purpose) → one_of p (sign_in ∷ sign_up ∷ []) ≡ true → (p ≡ sign_in) ⊎ (p ≡ sign_up)
unfolding one_of
signs_in-purpose sign_in h = inl refl
signs_in-purpose sign_up h = inr refl
signs_in-purpose _ h = cc

pub granted-SignsIn :
    (a : Attempt) (ls : List Link) (l : Link)
    → a.purposes ≡ some (sign_in ∷ sign_up ∷ [])
    → (consume a ls).1 ≡ some l
    → SignsIn a.now a.code ls l × (a.owns l.user_id ≡ true)
unfolding consume matches in_purposes
granted-SignsIn a ls l p h =
    let m = found_matches a _ ls l refl h in
    let q : in_purposes a.purposes l.purpose ≡ true = ground (arith, m) in
    (
      (
        consumed-Mem a _ ls l refl h,
        signs_in-purpose l.purpose (ap (λ o. in_purposes o l.purpose) (sym p) ∙ q),
        ground (arith, m),
        matches-code a l m,
      ),
      ground (arith, m),
    )
