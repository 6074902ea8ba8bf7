-- ===== src/Sessions/Examples.antt =====
-- A session that is visited now and then, and two more in a table.
use moneygun.Base.{◌≡◌, ◌≢◌, refl, false, [], ◌∷◌, List, none, some, codes, text_eq, arith}
use moneygun.Sessions.{Session, resume, create, cleanup, touch_last_seen, expired}
use moneygun.Sessions.Idle.{visits, Close, session_lives}
use moneygun.Sessions.Cleaning.{AreDistinct, has_token, resume-cleanup}

abbrev old : Session
old = record { token = codes "k1"; user_id = 1; created_at = 5; last_seen_at = none }

abbrev fresh : Session
fresh = record { token = codes "k2"; user_id = 2; created_at = 5; last_seen_at = some 1_300_000 }

abbrev table : List Session
table = old ∷ fresh ∷ []

table-AreDistinct : AreDistinct table
unfolding has_token text_eq
table-AreDistinct = (refl, (refl, tt))

-- A visit within 15 minutes is not noted.
soon_kept : touch_last_seen 1_300_899 fresh ≡ fresh
unfolding touch_last_seen
soon_kept = refl

-- The fourteenth day is included.
last_second : expired 1_209_605 old ≡ false
unfolding expired
last_second = refl

old_expired : resume 1_300_100 (some (codes "k1")) table ≡ (fresh ∷ [], none)
unfolding resume text_eq
old_expired = refl

resume-cleanup_example :
    (resume 1_300_100 (some (codes "k1")) (cleanup 1_300_100 table)).1
    ≡ (resume 1_300_100 (some (codes "k1")) table).1
resume-cleanup_example = resume-cleanup (codes "k1") 1_300_100 table table-AreDistinct

often : Close 100 (1_000_000 ∷ 2_000_000 ∷ [])
often = (omega arith, omega arith, (omega arith, omega arith, tt))

session_lives_example :
    (resume 3_000_000
      (some (codes "k"))
      (visits (codes "k") (100 ∷ 1_000_000 ∷ 2_000_000 ∷ []) (create 50 (codes "k") 7 table))).1
    ≢ none
session_lives_example =
    session_lives (codes "k") 7 50 100 3_000_000 (1_000_000 ∷ 2_000_000 ∷ []) table (omega arith)
      (omega arith) often (omega arith) (omega arith)
