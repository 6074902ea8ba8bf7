-- ===== src/Sso/Domains.antt =====
-- A domain speaks for one connection.
use moneygun.Base.{
  text_eq-sym, ℕ, ◌≡◌, refl, ap, ◌∙◌, sym, ◌≢◌, Bool, true, false, not, ◌&&◌, ◌==◌, List, [], ◌∷◌,
  ◌++◌, Option, none, some, Text, text_eq, text_eq_iff, keep_if, All, arith, Bool-cases, inl, inr,
}
use moneygun.Sso.{
  Domain, is_verified, asserts_domain, verified_for, domain_for, asserts_email, find_domain,
  claimed_elsewhere, set_verified, verify_found, verify, id_taken, add, Event, adds, verifies,
  removes, step, run,
}

-- Two rows with different keys, of which one is not verified or the domains differ.
abbrev Apart : Domain → Domain → Type 0
Apart d q =
    ((q.id == d.id) ≡ false)
    × ((is_verified d.verified_at && (is_verified q.verified_at && text_eq q.domain d.domain))
        ≡ false)

abbrev pub AreExclusive : List Domain → Type 0
AreExclusive [] = Unit
AreExclusive (d ∷ ds) = All (Apart d) ds × AreExclusive ds

keep_if-Apart :
    (k : Domain → Bool) (d : Domain) (ds : List Domain)
    → All (Apart d) ds
    → All (Apart d) (keep_if k ds)
keep_if-Apart k d [] h = tt
keep_if-Apart k d (q ∷ qs) h = ground (arith, keep_if-Apart k d qs h.1, h.0)

keep_if-AreExclusive :
    (k : Domain → Bool) (ds : List Domain) → AreExclusive ds → AreExclusive (keep_if k ds)
keep_if-AreExclusive k [] h = tt
keep_if-AreExclusive k (d ∷ ds) h =
    ground (arith, keep_if-AreExclusive k ds h.1, keep_if-Apart k d ds h.0)

append-Apart :
    (d n : Domain) (ds : List Domain) → All (Apart d) ds → Apart d n → All (Apart d) (ds ++ n ∷ [])
append-Apart d n [] h a = (a, tt)
append-Apart d n (q ∷ qs) h a = (h.0, append-Apart d n qs h.1 a)

new-Apart :
    (d : Domain) (i c : ℕ) (x : Text) (ds : List Domain)
    → id_taken i (d ∷ ds) ≡ false
    → Apart d (record { id = i; connection_id = c; domain = x; verified_at = none })
unfolding id_taken is_verified
new-Apart d i c x ds h = ground arith

append-AreExclusive :
    (i c : ℕ) (x : Text) (ds : List Domain)
    → id_taken i ds ≡ false
    → AreExclusive ds
    → AreExclusive (ds ++ record { id = i; connection_id = c; domain = x; verified_at = none } ∷ [])
unfolding id_taken
append-AreExclusive i c x [] h v = (tt, tt)
append-AreExclusive i c x (d ∷ ds) h v = (
  append-Apart d _ ds v.0 (new-Apart d i c x ds h),
  append-AreExclusive i c x ds (ground arith) v.1,
)

find-head :
    (q d : Domain) (qs : List Domain)
    → (q.id == d.id) ≡ true
    → find_domain d.id (q ∷ qs) ≡ some d
    → q ≡ d
unfolding find_domain
find-head q d qs e f = let g : some q ≡ some d = sym (rw e refl) ∙ f in cc g

-- Rows that claim different domains, of which the second one is verified now.
now-Apart :
    (now : ℕ) (r q : Domain)
    → Apart r q
    → (is_verified r.verified_at && text_eq r.domain q.domain) ≡ false
    → Apart r (record q { verified_at = some now })
unfolding is_verified
now-Apart now r q h n = ground (arith, h, n, text_eq-sym q.domain r.domain)

-- A row that is verified stays apart from a row that does not claim its domain.
set-Apart :
    (now : ℕ) (r d : Domain) (ds : List Domain)
    → All (Apart r) ds
    → find_domain d.id ds ≡ some d
    → (is_verified r.verified_at && text_eq r.domain d.domain) ≡ false
    → All (Apart r) (set_verified now d.id ds)
unfolding find_domain set_verified
set-Apart now r d [] h f n = cc
set-Apart now r d (q ∷ qs) h f n = elim (Bool-cases (q.id == d.id)) [
  | inl e ↦ rw e (
    now-Apart now r q h.0 (
        ap (λ z. is_verified r.verified_at && text_eq r.domain z.domain) (find-head q d qs e f)
        ∙ n),
    h.1,
  )
  | inr e ↦ rw e (h.0, set-Apart now r d qs h.1 (ground (arith, e)) n)
]

-- The row that is verified stays apart from all that do not claim its domain.
verified-Apart :
    (now : ℕ) (d : Domain) (ds : List Domain)
    → All (Apart d) ds
    → claimed_elsewhere d.id d.domain ds ≡ false
    → All (Apart (record d { verified_at = some now })) ds
unfolding claimed_elsewhere is_verified
verified-Apart now d [] h n = tt
verified-Apart now d (q ∷ qs) h n = ground (arith, verified-Apart now d qs h.1)

set-AreExclusive :
    (now : ℕ) (d : Domain) (ds : List Domain)
    → AreExclusive ds
    → find_domain d.id ds ≡ some d
    → claimed_elsewhere d.id d.domain ds ≡ false
    → AreExclusive (set_verified now d.id ds)
unfolding find_domain set_verified claimed_elsewhere
set-AreExclusive now d [] v f n = tt
set-AreExclusive now d (q ∷ qs) v f n = elim (Bool-cases (q.id == d.id)) [
  | inl e ↦ rw e (
    verified-Apart now q qs v.0
        (ap (λ z. claimed_elsewhere z.id z.domain qs) (find-head q d qs e f) ∙ ground (arith, e)),
    v.1,
  )
  | inr e ↦ rw e (
    set-Apart now q d qs v.0 (ground (arith, e)) (ground (arith, e)),
    set-AreExclusive now d qs v.1 (ground (arith, e)) (ground (arith, e)),
  )
]

find-id : (i : ℕ) (d : Domain) (ds : List Domain) → find_domain i ds ≡ some d → d.id ≡ i
unfolding find_domain
find-id i d [] f = cc
find-id i d (q ∷ qs) f = ground (arith, find-id i d qs)

found-AreExclusive :
    (now : ℕ) (published : Bool) (i : ℕ) (o : Option Domain) (ds : List Domain)
    → find_domain i ds ≡ o
    → AreExclusive ds
    → AreExclusive (verify_found now published o ds).0
unfolding verify_found
found-AreExclusive now published i none ds f v = v
found-AreExclusive now published i (some d) ds f v =
    let own = ap (λ k. find_domain k ds) (find-id i d ds f) ∙ f in
    ground (arith, set-AreExclusive now d ds v own)

step-AreExclusive : (e : Event) (ds : List Domain) → AreExclusive ds → AreExclusive (step e ds)
unfolding step add verify
step-AreExclusive (adds valid i c x) ds v = ground (arith, append-AreExclusive i c x ds)
step-AreExclusive (verifies now published i) ds v =
    found-AreExclusive now published i (find_domain i ds) ds refl v
step-AreExclusive (removes i) ds v = keep_if-AreExclusive (λ d. not (d.id == i)) ds v

pub run-AreExclusive :
    (es : List Event) (ds : List Domain) → AreExclusive ds → AreExclusive (run es ds)
unfolding run
run-AreExclusive [] ds v = v
run-AreExclusive (e ∷ es) ds v = run-AreExclusive es (step e ds) (step-AreExclusive e ds v)

-- No row of a domain that a row claims is verified for another connection.
others_not :
    (d : Domain) (c : ℕ) (x : Text) (ds : List Domain)
    → All (Apart d) ds
    → (is_verified d.verified_at && text_eq d.domain x) ≡ true
    → verified_for c x ds ≡ false
unfolding verified_for
others_not d c x [] h e = refl
others_not d c x (q ∷ qs) h e =
    ground (arith, h, e, others_not d c x qs h.1 e, (text_eq_iff d.domain x).0)

one_connection :
    (a b : ℕ) (x : Text) (ds : List Domain)
    → AreExclusive ds
    → verified_for a x ds ≡ true
    → verified_for b x ds ≡ true
    → a ≡ b
unfolding verified_for
one_connection a b x [] v h k = cc
one_connection a b x (d ∷ ds) v h k =
    elim (Bool-cases (is_verified d.verified_at && text_eq d.domain x)) [
      | inl e ↦ ground (arith, e, h, k, others_not d a x ds v.0 e, others_not d b x ds v.0 e)
      | inr e ↦ one_connection a b x ds v.1 (ground (arith, e, h)) (ground (arith, e, k))
    ]

some_domain :
    (a b : ℕ) (o : Option Text) (ds : List Domain)
    → AreExclusive ds
    → asserts_domain a o ds ≡ true
    → asserts_domain b o ds ≡ true
    → a ≡ b
unfolding asserts_domain
some_domain a b none ds v h k = cc
some_domain a b (some x) ds v h k = one_connection a b x ds v h k

-- However domains are added, verified and removed, from no rows on: where a connection speaks for an
-- address, no other connection does.
pub one_speaker :
    (clean : Text → Text) (es : List Event) (a b : ℕ) (email : Text)
    → asserts_email clean a email (run es []) ≡ true
    → b ≢ a
    → asserts_email clean b email (run es []) ≡ false
unfolding asserts_email
one_speaker clean es a b email h n =
    elim (Bool-cases (asserts_domain b (domain_for clean email) (run es []))) [
      | inl k ↦
          absurd (
            n (
              some_domain b a (domain_for clean email) (run es []) (run-AreExclusive es [] tt) k h))
      | inr k ↦ k
    ]
