-- ===== src/Sessions/Owners.antt =====
-- Whose sessions there are.
use moneygun.Base.{
  ℕ, ◌≡◌, refl, Bool, false, not, ◌||◌, ◌==◌, List, [], ◌∷◌, Option, none, some, Text, text_eq,
  keep_if, arith,
}
use moneygun.Sessions.{
  Session, touch_last_seen, find_by_token, destroy, replace, resume_found, resume, create,
  delete_all_of,
}

abbrev pub has_session : ℕ → List Session → Bool
has_session u [] = false
has_session u (s ∷ ss) = s.user_id == u || has_session u ss

pub has-keep_if :
    (u : ℕ) (q : Session → Bool) (ss : List Session)
    → has_session u ss ≡ false
    → has_session u (keep_if q ss) ≡ false
has-keep_if u q [] h = refl
has-keep_if u q (s ∷ ss) h = ground (arith, has-keep_if u q ss)

has-find :
    (u : ℕ) (k : Text) (s : Session) (ss : List Session)
    → find_by_token k ss ≡ some s
    → has_session u ss ≡ false
    → (s.user_id == u) ≡ false
unfolding find_by_token
has-find u k s [] f h = cc
has-find u k s (r ∷ rs) f h = ground (arith, has-find u k s rs)

has-replace :
    (u : ℕ) (s : Session) (ss : List Session)
    → (s.user_id == u) ≡ false
    → has_session u ss ≡ false
    → has_session u (replace s ss) ≡ false
unfolding replace
has-replace u s [] e h = refl
has-replace u s (r ∷ rs) e h = ground (arith, has-replace u s rs)

touch_user :
    (now u : ℕ) (s : Session)
    → (s.user_id == u) ≡ false
    → ((touch_last_seen now s).user_id == u) ≡ false
unfolding touch_last_seen
touch_user now u s h = ground arith

found-has :
    (u now : ℕ) (k : Text) (o : Option Session) (ss : List Session)
    → find_by_token k ss ≡ o
    → has_session u ss ≡ false
    → has_session u (resume_found now o ss).0 ≡ false
unfolding resume_found
found-has u now k none ss f h = h
found-has u now k (some s) ss f h = ground (
  arith,
  has-keep_if u (λ r. not (text_eq r.token s.token)) ss h,
  has-replace u (touch_last_seen now s) ss (touch_user now u s (has-find u k s ss f h)) h,
)

-- Resuming a session makes nobody a session.
pub has-resume :
    (u now : ℕ) (k : Option Text) (ss : List Session)
    → has_session u ss ≡ false
    → has_session u (resume now k ss).0 ≡ false
unfolding resume
has-resume u now none ss h = h
has-resume u now (some k) ss h = found-has u now k (find_by_token k ss) ss refl h

-- `delete_all_of` leaves no session of the user.
pub has-delete_all : (u : ℕ) (ss : List Session) → has_session u (delete_all_of u ss) ≡ false
unfolding delete_all_of
has-delete_all u [] = refl
has-delete_all u (s ∷ ss) = ground (arith, has-delete_all u ss)

pub has-create :
    (u now i : ℕ) (k : Text) (ss : List Session)
    → has_session u (create now k i ss) ≡ (i == u || has_session u ss)
unfolding create
has-create u now i k ss = refl

pub has-destroy :
    (u : ℕ) (k : Text) (ss : List Session)
    → has_session u ss ≡ false
    → has_session u (destroy k ss) ≡ false
unfolding destroy
has-destroy u k ss h = has-keep_if u (λ s. not (text_eq s.token k)) ss h

pub has-delete :
    (u i : ℕ) (ss : List Session)
    → has_session u ss ≡ false
    → has_session u (delete_all_of i ss) ≡ false
unfolding delete_all_of
has-delete u i ss h = has-keep_if u (λ s. not (s.user_id == i)) ss h
