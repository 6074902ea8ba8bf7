-- ===== src/Counter/Examples.antt =====
-- A field of at most four characters.
use moneygun.Base.{◌≡◌, refl, codes, true, false, none, some}
use moneygun.Counter.{Counter, nothing, update_count}

abbrev short : Counter
short = record {
  limit = some 4;
  input = none;
  listening = false;
  shown = nothing;
  text_error = false;
  text_muted = true;
}

too_long : (update_count (record short { input = some (codes "abcde") })).text_error ≡ true
unfolding update_count
too_long = refl
