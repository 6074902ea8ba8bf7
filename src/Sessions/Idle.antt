-- ===== src/Sessions/Idle.antt =====
-- How long a session lives between visits.
use moneygun.Base.{
  ℕ, ◌+◌, ◌≤◌, ◌<◌, ◌≡◌, refl, true, false, List, [], ◌∷◌, none, some, Text, text_eq_refl,
  text_eq_iff, ◌≢◌, ◌∙◌, ap, arith,
}
use moneygun.Sessions.{
  Session, touch_interval, idle_timeout, last_used, expired, touch_last_seen, find_by_token,
  destroy, replace, resume_found, resume, create,
}

-- A row that a visit at the time `t` left: it was seen at most 15 minutes before.
abbrev pub SeenBy : ℕ → Session → Type 0
SeenBy t s = (last_used s ≤ t) × (t < last_used s + touch_interval)

touch-SeenBy : (now : ℕ) (s : Session) → last_used s ≤ now → SeenBy now (touch_last_seen now s)
unfolding touch_last_seen last_used
touch-SeenBy now s h = ground arith

find-token :
    (k : Text) (s : Session) (ss : List Session) → find_by_token k ss ≡ some s → s.token ≡ k
unfolding find_by_token
find-token k s [] h = cc
find-token k s (q ∷ qs) h = ground (arith, find-token k s qs, text_eq_iff q.token k)

find-replace :
    (r s : Session) (ss : List Session)
    → find_by_token r.token ss ≡ some s
    → find_by_token r.token (replace r ss) ≡ some r
unfolding find_by_token replace
find-replace r s [] h = cc
find-replace r s (q ∷ qs) h = ground (arith, find-replace r s qs, text_eq_refl r.token)

touch-token : (now : ℕ) (s : Session) → (touch_last_seen now s).token ≡ s.token
unfolding touch_last_seen
touch-token now s = ground arith

find-touched :
    (k : Text) (now : ℕ) (s : Session) (ss : List Session)
    → find_by_token k ss ≡ some s
    → find_by_token k (replace (touch_last_seen now s) ss) ≡ some (touch_last_seen now s)
unfolding touch_last_seen
find-touched k now s ss h =
    let e = touch-token now s ∙ find-token k s ss h in
    rw e at (find-replace (touch_last_seen now s) s ss (rw e h))

-- The session of a token, as a visit at some time left it.
record IsSeen (k : Text) (t : ℕ) (ss : List Session) : Type 0 where
  row : Session
  found : find_by_token k ss ≡ some row
  lately : SeenBy t row

-- Visits with a token at some times, and whether the last one resumed a session.
pub visits : Text → List ℕ → List Session → List Session
visits k [] ss = ss
visits k (now ∷ later) ss = visits k later (resume now (some k) ss).0

resume_alive :
    (k : Text) (now : ℕ) (s : Session) (ss : List Session)
    → find_by_token k ss ≡ some s
    → expired now s ≡ false
    → resume now (some k) ss ≡ (replace (touch_last_seen now s) ss, some (touch_last_seen now s))
unfolding resume resume_found
resume_alive k now s ss h e = rw (h, e) refl

resume-expired :
    (k : Text) (now : ℕ) (s : Session) (ss : List Session)
    → find_by_token k ss ≡ some s
    → expired now s ≡ true
    → resume now (some k) ss ≡ (destroy s.token ss, none)
unfolding resume resume_found
resume-expired k now s ss h e = rw (h, e) refl

not_expired : (now : ℕ) (s : Session) → now ≤ last_used s + idle_timeout → expired now s ≡ false
unfolding expired
not_expired now s h = ground arith

touched-IsSeen :
    (k : Text) (now : ℕ) (s : Session) (ss : List Session)
    → find_by_token k ss ≡ some s
    → last_used s ≤ now
    → now ≤ last_used s + idle_timeout
    → ((resume now (some k) ss).1 ≢ none) × IsSeen k now (resume now (some k) ss).0
touched-IsSeen k now s ss f l g = rw (resume_alive k now s ss f (not_expired now s g)) (
  (λ h. cc),
  record {
    row = touch_last_seen now s;
    found = find-touched k now s ss f;
    lately = touch-SeenBy now s l;
  },
)

resume-IsSeen :
    (k : Text) (t now : ℕ) (ss : List Session)
    → IsSeen k t ss
    → t ≤ now
    → now + touch_interval ≤ t + idle_timeout
    → ((resume now (some k) ss).1 ≢ none) × IsSeen k now (resume now (some k) ss).0
resume-IsSeen k t now ss v l g =
    touched-IsSeen k now v.row ss v.found (omega (arith, l, v.lately)) (omega (arith, g, v.lately))

-- Times at which each next visit comes no earlier than the one before, and no later than 14 days less
-- 15 minutes after it.
abbrev pub Close : ℕ → List ℕ → Type 0
Close t [] = Unit
Close t (now ∷ later) = (t ≤ now) × (now + touch_interval ≤ t + idle_timeout) × Close now later

abbrev pub last_of : ℕ → List ℕ → ℕ
last_of t [] = t
last_of t (now ∷ later) = last_of now later

visits-IsSeen :
    (k : Text) (t : ℕ) (ts : List ℕ) (ss : List Session)
    → IsSeen k t ss
    → Close t ts
    → IsSeen k (last_of t ts) (visits k ts ss)
unfolding visits
visits-IsSeen k t [] ss v c = v
visits-IsSeen k t (now ∷ later) ss v c =
    visits-IsSeen k now later (resume now (some k) ss).0 (resume-IsSeen k t now ss v c.0 c.1).1 c.2

find_created :
    (k : Text) (u start : ℕ) (ss : List Session)
    → find_by_token k (create start k u ss)
      ≡ some (record { token = k; user_id = u; created_at = start; last_seen_at = none })
unfolding create find_by_token
find_created k u start ss = rw (text_eq_refl k) refl

first-IsSeen :
    (k : Text) (u start first : ℕ) (ss : List Session)
    → start ≤ first
    → first ≤ start + idle_timeout
    → IsSeen k first (resume first (some k) (create start k u ss)).0
unfolding last_used
first-IsSeen k u start first ss l g =
    (touched-IsSeen k first _ (create start k u ss) (find_created k u start ss) l g).1

destroyed : (k : Text) (ss : List Session) → find_by_token k (destroy k ss) ≡ none
unfolding destroy find_by_token
destroyed k [] = refl
destroyed k (s ∷ ss) = ground (arith, destroyed k ss)

-- A session that is created and first used within 14 days is resumed by every later visit, as long
-- as each comes at most 14 days less 15 minutes after the one before.
pub session_lives :
    (k : Text) (u start first now : ℕ) (ts : List ℕ) (ss : List Session)
    → start ≤ first
    → first ≤ start + idle_timeout
    → Close first ts
    → last_of first ts ≤ now
    → now + touch_interval ≤ last_of first ts + idle_timeout
    → (resume now (some k) (visits k (first ∷ ts) (create start k u ss))).1 ≢ none
unfolding visits
session_lives k u start first now ts ss l g c h b =
    let seen_first = first-IsSeen k u start first ss l g in
    let seen_last = visits-IsSeen k first ts _ seen_first c in
    (resume-IsSeen k (last_of first ts) now _ seen_last h b).0

is_expired : (now : ℕ) (s : Session) → last_used s + idle_timeout < now → expired now s ≡ true
unfolding expired
is_expired now s h = ground arith

-- A visit more than 14 days after the last one finds no session, and the session is gone for good.
pub session_dies :
    (k : Text) (u start first now : ℕ) (ts : List ℕ) (ss : List Session)
    → start ≤ first
    → first ≤ start + idle_timeout
    → Close first ts
    → last_of first ts + idle_timeout < now
    → let out = resume now (some k) (visits k (first ∷ ts) (create start k u ss)) in
      (out.1 ≡ none) × (find_by_token k out.0 ≡ none)
unfolding visits
session_dies k u start first now ts ss l g c b =
    let seen_first = first-IsSeen k u start first ss l g in
    let v = visits-IsSeen k first ts _ seen_first c in
    let w = visits k ts (resume first (some k) (create start k u ss)).0 in
    let e = is_expired now v.row (omega (arith, b, v.lately)) in
    rw (resume-expired k now v.row w v.found e)
      (refl, ap (λ q. find_by_token k (destroy q w)) (find-token k v.row w v.found) ∙ destroyed k w)
