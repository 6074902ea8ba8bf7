-- ===== src/Counter/Limit.antt =====
-- The display against the value of the input.
use moneygun.Base.{
  ℕ, ◌<◌, ◌≤◌, ◌≡◌, refl, ◌↔◌, true, not, List, [], ◌∷◌, Option, none, some, Text, length, ltb,
  arith,
}
use moneygun.Counter.{Counter, Shown, count, count_of, connect, run, on_input}

-- What the display should show for a value.
abbrev pub expected : Option ℕ → ℕ → Shown
expected none n = count n
expected (some limit) n = count_of n limit

-- The value that an input has in the end.
abbrev pub last_value : Text → List Text → Text
last_value v [] = v
last_value v (w ∷ ws) = last_value w ws

record Shows (limit : Option ℕ) (v : Text) (c : Counter) : Type 0 where
  same_limit : c.limit ≡ limit
  value : c.input ≡ some v
  live : c.listening ≡ true
  number : c.shown ≡ expected limit (length v)
  over :
      (k : ℕ)
      → limit ≡ some k
      → (c.text_error ≡ ltb k (length v)) × (c.text_muted ≡ not (ltb k (length v)))

connect-Shows :
    (limit : Option ℕ) (v : Text) (c : Counter)
    → c.limit ≡ limit
    → Shows limit v (connect (some (some v)) c)
unfolding connect
connect-Shows none v c h = record {
  same_limit = ground arith;
  value = ground arith;
  live = ground arith;
  number = ground arith;
  over = λ k e. cc;
}
connect-Shows (some l) v c h = record {
  same_limit = ground arith;
  value = ground arith;
  live = ground arith;
  number = ground arith;
  over = λ k e. ground arith;
}

on_input-Shows :
    (limit : Option ℕ) (v w : Text) (c : Counter) → Shows limit v c → Shows limit w (on_input w c)
unfolding on_input
on_input-Shows none v w c s = record {
  same_limit = ground arith;
  value = ground arith;
  live = ground arith;
  number = ground arith;
  over = λ k e. cc;
}
on_input-Shows (some l) v w c s = record {
  same_limit = ground arith;
  value = ground arith;
  live = ground arith;
  number = ground arith;
  over = λ k e. ground arith;
}

run-Shows :
    (limit : Option ℕ) (v : Text) (vs : List Text) (c : Counter)
    → Shows limit v c
    → Shows limit (last_value v vs) (run vs c)
unfolding run
run-Shows limit v [] c s = s
run-Shows limit v (w ∷ ws) c s = run-Shows limit w ws (on_input w c) (on_input-Shows limit v w c s)

-- After any input the display shows the length of the value that the input has, with the limit if
-- there is one.
pub display_is_current :
    (c : Counter) (v : Text) (vs : List Text)
    → (run vs (connect (some (some v)) c)).shown ≡ expected c.limit (length (last_value v vs))
display_is_current c v vs =
    (run-Shows c.limit v vs (connect (some (some v)) c) (connect-Shows c.limit v c refl)).number

-- With a limit, the error class is on exactly if the value is longer than the limit, and the muted
-- class exactly if it is not.
pub error_iff_over :
    (c : Counter) (v : Text) (vs : List Text) (limit : ℕ)
    → c.limit ≡ some limit
    → let d = run vs (connect (some (some v)) c) in
      ((d.text_error ≡ true) ↔ (limit < length (last_value v vs)))
      × ((d.text_muted ≡ true) ↔ (length (last_value v vs) ≤ limit))
error_iff_over c v vs limit h =
    let s =
      (run-Shows c.limit v vs (connect (some (some v)) c) (connect-Shows c.limit v c refl)).over
        limit h in
    ground (arith, s)
