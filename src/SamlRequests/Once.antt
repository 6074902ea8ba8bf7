-- ===== src/SamlRequests/Once.antt =====
-- A request is answered once.
use moneygun.Base.{
  Bool-cases, inl, inr, ℕ, ◌≡◌, refl, Bool, true, false, not, ◌&&◌, ◌==◌, List, [], ◌∷◌, Text,
  text_eq, text_eq_iff, leb, keep_if, length, arith,
}
use moneygun.SamlRequests.{AuthRequest, id_exists, start, Answer, answers, consume}
use moneygun.Tokens.{OneTime, attempts}
use moneygun.Tokens.Once.{second_refused}

-- The unique index.
abbrev pub AreDistinct : List AuthRequest → Type 0
AreDistinct [] = Unit
AreDistinct (r ∷ rs) = (id_exists r.request_id rs ≡ false) × AreDistinct rs

keep_if-absent :
    (q : AuthRequest → Bool) (i : Text) (rs : List AuthRequest)
    → id_exists i rs ≡ false
    → id_exists i (keep_if q rs) ≡ false
unfolding id_exists
keep_if-absent q i [] h = refl
keep_if-absent q i (r ∷ rs) h = ground (arith, keep_if-absent q i rs)

keep_if-AreDistinct :
    (q : AuthRequest → Bool) (rs : List AuthRequest) → AreDistinct rs → AreDistinct (keep_if q rs)
keep_if-AreDistinct q [] h = tt
keep_if-AreDistinct q (r ∷ rs) h =
    ground (arith, keep_if-AreDistinct q rs h.1, keep_if-absent q r.request_id rs h.0)

-- Creating a request keeps the identifiers distinct.
pub start-AreDistinct :
    (now : ℕ) (i : Text) (connection : ℕ) (rs : List AuthRequest)
    → AreDistinct rs
    → AreDistinct (start now i connection rs).0
unfolding start
start-AreDistinct now i connection rs h = ground (
  arith,
  keep_if-AreDistinct (λ r. not (r.connection_id == connection && leb r.expires_at now)) rs h,
)

absent_none :
    (a : Answer) (rs : List AuthRequest)
    → id_exists a.request_id rs ≡ false
    → keep_if (answers a) rs ≡ []
unfolding answers id_exists
absent_none a [] h = refl
absent_none a (r ∷ rs) h = ground (arith, absent_none a rs)

same_absent :
    (i j : Text) (rs : List AuthRequest)
    → text_eq i j ≡ true
    → id_exists i rs ≡ false
    → id_exists j rs ≡ false
same_absent i j rs e h = rw⁻¹ ((text_eq_iff i j).0 e) h

answered_same :
    (a : Answer) (r : AuthRequest) → answers a r ≡ true → text_eq r.request_id a.request_id ≡ true
unfolding answers
answered_same a r h = ground arith

-- With distinct identifiers, a request that is answered leaves no row of its identifier.
answered_absent :
    (a : Answer) (rs : List AuthRequest)
    → AreDistinct rs
    → length (keep_if (answers a) rs) ≡ 1
    → id_exists a.request_id (keep_if (λ r. not (answers a r)) rs) ≡ false
unfolding id_exists
answered_absent a [] v h = refl
answered_absent a (r ∷ rs) v h = elim (Bool-cases (answers a r)) [
  | inl e ↦
      let gone = same_absent r.request_id a.request_id rs (answered_same a r e) v.0 in
      rw e (keep_if-absent (λ q. not (answers a q)) a.request_id rs gone)
  | inr e ↦ elim (Bool-cases (text_eq r.request_id a.request_id)) [
    | inl s ↦
        absurd
          (ground (arith, absent_none a rs (same_absent r.request_id a.request_id rs s v.0), e))
    | inr s ↦ ground (arith, answered_absent a rs v.1, e, s)
  ]
]

-- The token is the identifier of the request.
pub consume-AreDistinct :
    (a : Answer) (rs : List AuthRequest) → AreDistinct rs → AreDistinct (consume a rs).0
unfolding consume
consume-AreDistinct a rs v = ground (arith, keep_if-AreDistinct (λ r. not (answers a r)) rs v)

pub consume_spent :
    (a : Answer) (rs : List AuthRequest)
    → AreDistinct rs
    → (consume a rs).1 ≡ true
    → id_exists a.request_id (consume a rs).0 ≡ false
unfolding consume
consume_spent a rs v h = ground (arith, answered_absent a rs v)

pub consume_stays :
    (a : Answer) (i : Text) (rs : List AuthRequest)
    → id_exists i rs ≡ false
    → id_exists i (consume a rs).0 ≡ false
unfolding consume
consume_stays a i rs h = ground (arith, keep_if-absent (λ r. not (answers a r)) i rs h)

pub consume_refused :
    (a : Answer) (rs : List AuthRequest)
    → id_exists a.request_id rs ≡ false
    → (consume a rs).1 ≡ false
unfolding consume
consume_refused a rs h = ground (arith, absent_none a rs h)

-- Requests of a SAML sign-in are one-time tokens.
abbrev pub saml_requests : OneTime Answer Text (List AuthRequest)
saml_requests = record {
  consume = consume;
  token = λ a. a.request_id;
  IsValid = AreDistinct;
  Spent = λ i rs. id_exists i rs ≡ false;
  stays_valid = consume-AreDistinct;
  gets_spent = consume_spent;
  stays_spent = consume_stays;
  is_refused = consume_refused;
}

-- With distinct identifiers in the table, a request that was answered, by whatever connection, is
-- not answered again after any other answers, also by another connection or at an earlier time.
pub request_once :
    (a b : Answer) (between : List Answer) (rs : List AuthRequest)
    → AreDistinct rs
    → (consume a rs).1 ≡ true
    → b.request_id ≡ a.request_id
    → (consume b (attempts saml_requests between (consume a rs).0)).1 ≡ false
request_once = second_refused saml_requests
