-- ===== src/Sessions.antt =====
-- app/models/session.rb, with the parts of app/controllers/concerns/authentication.rb and of
-- app/models/concerns/user/banning.rb that create and end sessions. The token has a unique index and
-- names its session. Times are seconds.
pub mod Idle
pub mod Cleaning
pub mod Owners
mod Examples
use moneygun.Base.{
  ℕ, ◌+◌, ◌≡◌, Bool, true, false, not, ◌&&◌, ◌==◌, List, [], ◌∷◌, Option, none, some, Text, text_eq,
  leb, ltb, keep_if, if◌then◌else◌,
}

pub record Session : Type 0 where
  pub token : Text
  pub user_id : ℕ
  pub created_at : ℕ
  pub last_seen_at : Option ℕ

-- `TOUCH_LAST_SEEN_INTERVAL` and `IDLE_TIMEOUT`.
abbrev pub touch_interval : ℕ
touch_interval = 900

abbrev pub idle_timeout : ℕ
idle_timeout = 1_209_600

seen : Option ℕ → ℕ → ℕ
seen none created = created
seen (some t) created = t

-- `last_seen_at || created_at`.
pub last_used : Session → ℕ
unfolding seen
last_used s = seen s.last_seen_at s.created_at

-- `expired?`; nothing is subtracted, so there is no time before zero.
pub expired : ℕ → Session → Bool
unfolding last_used
expired now s = ltb (last_used s + idle_timeout) now

recently : ℕ → Option ℕ → Bool
recently now none = false
recently now (some t) = ltb now (t + touch_interval)

pub touch_last_seen : ℕ → Session → Session
unfolding recently
touch_last_seen now s =
    if recently now s.last_seen_at then s else record s { last_seen_at = some now }

pub find_by_token : Text → List Session → Option Session
find_by_token k [] = none
find_by_token k (s ∷ ss) =
    let rest = find_by_token k ss in if text_eq s.token k then some s else rest

pub destroy : Text → List Session → List Session
destroy k ss = keep_if (λ s. not (text_eq s.token k)) ss

-- The row gets its new value.
pub replace : Session → List Session → List Session
replace s [] = []
replace s (r ∷ rs) = let rest = replace s rs in if text_eq r.token s.token then s ∷ rs else r ∷ rest

resume_found : ℕ → Option Session → List Session → List Session × Option Session
unfolding expired touch_last_seen destroy replace
resume_found now none ss = (ss, none)
resume_found now (some s) ss =
    if expired now s
    then (destroy s.token ss, none)
    else (replace (touch_last_seen now s) ss, some (touch_last_seen now s))

-- `resume_from_cookie`; a blank cookie is none.
unfoldable pub resume : ℕ → Option Text → List Session → List Session × Option Session
unfolding resume_found find_by_token
resume now none ss = (ss, none)
resume now (some k) ss = resume_found now (find_by_token k ss) ss

-- `cleanup`.
pub cleanup : ℕ → List Session → List Session
unfolding expired
cleanup now ss = keep_if (λ s. not (expired now s)) ss

-- `user.sessions.create!`, with the token that `has_secure_token` draws.
unfoldable pub create : ℕ → Text → ℕ → List Session → List Session
create now k u ss = record { token = k; user_id = u; created_at = now; last_seen_at = none } ∷ ss

-- `sessions.delete_all` of a user.
pub delete_all_of : ℕ → List Session → List Session
delete_all_of u ss = keep_if (λ s. not (s.user_id == u)) ss
