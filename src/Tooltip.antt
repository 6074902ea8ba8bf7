-- ===== src/Tooltip.antt =====
-- app/javascript/controllers/tooltip_controller.js: a tooltip element that is built when it is shown
-- and removed when it is hidden. The model keeps the tooltips of the body (those of this controller
-- and the others), the `autoUpdate` subscriptions, and the positions of @floating-ui as events.
pub mod Visibility
mod Examples
use moneygun.Base.{
  ℕ, ◌+◌, ◌-◌, Bool, true, false, not, List, [], ◌∷◌, ◌++◌, Option, none, some, Text, keep_if,
  if◌then◌else◌,
}

pub data Node : Type 0 where
  tip : Text → Node
  other : ℕ → Node

abbrev pub is_tip : Node → Bool
is_tip (tip s) = true
is_tip (other k) = false

-- The element that `this.tooltip` refers to.
pub record Tip : Type 0 where
  pub text : Text
  pub style : Option (Text × Text)

pub record Tooltip : Type 0 where
  pub content : Text
  pub tooltip : Option Tip
  pub cleanup : Bool
  pub body : List Node
  pub updates : ℕ

pub connect : Tooltip → Tooltip
connect t = record t { tooltip = none; cleanup = false }

build : Tooltip → Tooltip
build t = record t {
  tooltip = some (record { text = t.content; style = none });
  body = t.body ++ tip t.content ∷ [];
  cleanup = true;
  updates = t.updates + 1;
}

show_from : Option Tip → Tooltip → Tooltip
unfolding build
show_from none t = build t
show_from (some _) t = t

pub show : Tooltip → Tooltip
unfolding show_from
show t = show_from t.tooltip t

stop_updates : Tooltip → Tooltip
stop_updates t = if t.cleanup then record t { cleanup = false; updates = t.updates - 1 } else t

remove_tip : Option Tip → Tooltip → Tooltip
remove_tip none t = t
remove_tip (some _) t = record t { body = keep_if (λ n. not (is_tip n)) t.body; tooltip = none }

pub hide : Tooltip → Tooltip
unfolding stop_updates remove_tip
hide t = remove_tip t.tooltip (stop_updates t)

pub disconnect : Tooltip → Tooltip
unfolding hide
disconnect t = hide t

-- The callback that gets a position reads `this.tooltip.style`: without a tooltip it throws.
pub data Outcome : Type 0 where
  fine type_error : Tooltip → Outcome

place : Option Tip → Text → Text → Tooltip → Outcome
place none x y t = type_error t
place (some e) x y t = fine (record t { tooltip = some (record e { style = some (x, y) }) })

pub positioned : Text → Text → Tooltip → Outcome
unfolding place
positioned x y t = place t.tooltip x y t

pub data Event : Type 0 where
  shows hides : Event
  positions : Text → Text → Event

-- An error in the callback rejects its promise and leaves the controller as it is.
abbrev pub state_of : Outcome → Tooltip
state_of (fine t) = t
state_of (type_error t) = t

pub step : Event → Tooltip → Outcome
step shows t = fine (show t)
step hides t = fine (hide t)
step (positions x y) t = positioned x y t

pub run : List Event → Tooltip → Tooltip
run [] t = t
run (e ∷ es) t = run es (state_of (step e t))
