-- ===== src/Counter.antt =====
-- app/javascript/controllers/simple_form/character_counter_controller.js: the number of characters of
-- an input, against a limit. The display shows numbers; their decimal text is left out.
pub mod Limit
mod Examples
use moneygun.Base.{
  ℕ, Bool, true, false, not, ◌&&◌, List, [], ◌∷◌, Option, none, some, Text, length, ltb,
  if◌then◌else◌,
}

pub data Shown : Type 0 where
  nothing : Shown
  count : ℕ → Shown
  count_of : ℕ → ℕ → Shown

-- `input` is the value of the input that `connect` found. The display has the classes `text-error`
-- and `text-base-content/70`.
pub record Counter : Type 0 where
  pub limit : Option ℕ
  pub input : Option Text
  pub listening : Bool
  pub shown : Shown
  pub text_error : Bool
  pub text_muted : Bool

show_count : Option ℕ → ℕ → Counter → Counter
show_count none n c = record c { shown = count n }
show_count (some limit) n c =
    let is_over_limit = ltb limit n in
    record c {
      shown = count_of n limit;
      text_error = is_over_limit;
      text_muted = not is_over_limit;
    }

update_from : Option Text → Counter → Counter
unfolding show_count
update_from none c = c
update_from (some value) c = show_count c.limit (length value) c

-- `updateCount()`.
pub update_count : Counter → Counter
unfolding update_from
update_count c = update_from c.input c

attach : Option (Option Text) → Counter → Counter
unfolding update_count
attach none c = c
attach (some none) c = c
attach (some (some value)) c = record (update_count (record c { input = some value })) {
  listening = true;
}

-- `connect()`: the form control around the element, if there is one, with its input, if it has one.
pub connect : Option (Option Text) → Counter → Counter
unfolding attach
connect found c = attach found c

pub disconnect : Counter → Counter
disconnect c = record c { listening = false }

-- An `input` or `change` event after the value has changed.
type_in : Option Text → Text → Counter → Counter
unfolding update_count
type_in none v c = c
type_in (some old) v c =
    if c.listening then update_count (record c { input = some v }) else record c { input = some v }

pub on_input : Text → Counter → Counter
unfolding type_in
on_input v c = type_in c.input v c

pub run : List Text → Counter → Counter
unfolding on_input
run [] c = c
run (v ∷ vs) c = run vs (on_input v c)
