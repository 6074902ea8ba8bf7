-- ===== src/Sessions/Cleaning.antt =====
-- The periodic clean-up.
use moneygun.Base.{
  ℕ, ◌≡◌, refl, Bool, true, false, not, List, [], ◌∷◌, Option, none, some, Text, text_eq,
  text_eq_iff, ◌||◌, ap, sym, ◌∙◌, keep_if, if◌then◌else◌, arith, Bool-cases, inl, inr,
}
use moneygun.Sessions.{Session, expired, find_by_token, resume_found, resume, cleanup}

unfoldable pub has_token : Text → List Session → Bool
has_token k [] = false
has_token k (s ∷ ss) = text_eq s.token k || has_token k ss

-- The unique index on the token.
abbrev pub AreDistinct : List Session → Type 0
AreDistinct [] = Unit
AreDistinct (s ∷ ss) = (has_token s.token ss ≡ false) × AreDistinct ss

-- The session of a token, unless it is expired.
unless_expired : ℕ → Option Session → Option Session
unless_expired now none = none
unless_expired now (some s) = if expired now s then none else some s

find_absent : (k : Text) (ss : List Session) → has_token k ss ≡ false → find_by_token k ss ≡ none
unfolding has_token find_by_token
find_absent k [] h = refl
find_absent k (s ∷ ss) h = ground (arith, find_absent k ss)

absent-kept :
    (k : Text) (now : ℕ) (ss : List Session)
    → has_token k ss ≡ false
    → has_token k (keep_if (λ s. not (expired now s)) ss) ≡ false
unfolding has_token
absent-kept k now [] h = refl
absent-kept k now (s ∷ ss) h = ground (arith, absent-kept k now ss)

same_absent :
    (s : Session) (k : Text) (ss : List Session)
    → text_eq s.token k ≡ true
    → has_token s.token ss ≡ false
    → has_token k ss ≡ false
same_absent s k ss e h = ap (λ t. has_token t ss) (sym ((text_eq_iff s.token k).0 e)) ∙ h

find-cleanup :
    (k : Text) (now : ℕ) (ss : List Session)
    → AreDistinct ss
    → find_by_token k (keep_if (λ s. not (expired now s)) ss)
      ≡ unless_expired now (find_by_token k ss)
unfolding find_by_token unless_expired
find-cleanup k now [] v = refl
find-cleanup k now (s ∷ ss) v = elim (Bool-cases (text_eq s.token k)) [
  | inl e ↦
      let gone = absent-kept k now ss (same_absent s k ss e v.0) in
      ground (arith, e, find_absent k (keep_if (λ r. not (expired now r)) ss) gone)
  | inr e ↦ ground (arith, e, find-cleanup k now ss v.1)
]

found-resumed :
    (now : ℕ) (o : Option Session) (ss rs : List Session)
    → (resume_found now (unless_expired now o) rs).1 ≡ (resume_found now o ss).1
unfolding resume_found unless_expired
found-resumed now none ss rs = refl
found-resumed now (some s) ss rs = ground arith

-- The clean-up is not seen by anybody: with distinct tokens, a visit finds right after it the session
-- that it would have found without it.
pub resume-cleanup :
    (k : Text) (now : ℕ) (ss : List Session)
    → AreDistinct ss
    → (resume now (some k) (cleanup now ss)).1 ≡ (resume now (some k) ss).1
unfolding resume cleanup
resume-cleanup k now ss v =
    rw (find-cleanup k now ss v) (found-resumed now (find_by_token k ss) ss _)
