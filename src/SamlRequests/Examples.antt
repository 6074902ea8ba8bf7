-- ===== src/SamlRequests/Examples.antt =====
-- Two requests of two connections.
use moneygun.Base.{◌≡◌, refl, true, false, [], ◌∷◌, List, codes, text_eq}
use moneygun.SamlRequests.{AuthRequest, Answer, id_exists, start, consume}
use moneygun.SamlRequests.Once.{AreDistinct}

abbrev requests : List AuthRequest
requests =
    record { request_id = codes "_a"; connection_id = 1; expires_at = 600 }
    ∷ record { request_id = codes "_b"; connection_id = 2; expires_at = 700 }
    ∷ []

abbrev answer_a : Answer
answer_a = record { now = 60; request_id = codes "_a"; connection_id = 1 }

abbrev answer_b : Answer
answer_b = record { now = 70; request_id = codes "_b"; connection_id = 1 }

requests-AreDistinct : AreDistinct requests
unfolding id_exists text_eq
requests-AreDistinct = (refl, (refl, tt))

answered : (consume answer_a requests).1 ≡ true
unfolding consume text_eq
answered = refl

-- Connection 1 has no request "_b".
other_refused : (consume answer_b requests).1 ≡ false
unfolding consume text_eq
other_refused = refl

-- The unique index refuses an identifier that is there.
taken : (start 10 (codes "_b") 1 requests).1 ≡ false
unfolding start text_eq
taken = refl
