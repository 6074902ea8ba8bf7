-- ===== src/LocalTime.antt =====
-- app/javascript/controllers/local_time_controller.js and badge_controller.js: a time in the reader's
-- own zone, and the badge of the installed app. Parsing a date and writing it in the reader's locale
-- are the browser's: parameters.
pub mod Rendering
mod Examples
use moneygun.Base.{
  ℕ, Bool, true, false, ◌≡◌, Option, none, some, Text, codes, text_eq, ltb, List, [], ◌∷◌,
  if◌then◌else◌,
}

-- The options of the two formatting functions, all of them `numeric` but the short month and the
-- two digits of the minute.
pub record Parts : Type 0 where
  pub year : Bool
  pub month : Bool
  pub day : Bool
  pub hour : Bool
  pub minute : Bool

-- `toLocaleString` or `toLocaleDateString`.
pub data Style : Type 0 where
  date_and_time date_only : Parts → Style

pub format_style : Text → Style
format_style format =
    if text_eq format (codes "long")
    then date_and_time
        (record { year = true; month = true; day = true; hour = true; minute = true })
    else if text_eq format (codes "short_time")
    then date_and_time
        (record { year = false; month = true; day = true; hour = true; minute = true })
    else date_only (record { year = true; month = true; day = true; hour = false; minute = false })

module _ {ℓ} {Date : Type ℓ} (parse : Text → Option Date) (write : Style → Date → Text) where
  -- `formatDate(date)`.
  pub format_date : Text → Date → Text
  format_date format date = write (format_style format) date

  update_to : Option Date → Text → Text → Text
  unfolding format_date
  update_to none format content = content
  update_to (some date) format content = format_date format date

  -- `update()`: the new content of the element, from its `datetime`, the format and the old content.
  pub update : Text → Text → Text → Text
  unfolding update_to
  update datetime format content = update_to (parse datetime) format content

-- The value `format` of the controller, from its attribute.
format_value : Option Text → Text
format_value none = codes "short"
format_value (some format) = format

-- A `time` element: its attribute `datetime`, that of the value `format`, and its content.
pub record Time : Type 0 where
  pub datetime : Text
  pub format : Option Text
  pub content : Text

module _ {ℓ} {Date : Type ℓ} (parse : Text → Option Date) (write : Style → Date → Text) where
  -- `connect()`.
  pub connect : Time → Time
  unfolding format_value
  connect t = record t { content = update parse write t.datetime (format_value t.format) t.content }

-- `#updateBadge()`: the badge of the app, `none` if there is none.
pub update_badge : Bool → ℕ → Option ℕ → Option ℕ
update_badge supported count badge =
    if supported then (if ltb 0 count then some count else none) else badge

-- The value `count` of the badge controller, from its attribute.
count_value : Option ℕ → ℕ
count_value none = 0
count_value (some count) = count

-- `countValueChanged()`, which Stimulus also calls at the start.
pub count_value_changed : Bool → Option ℕ → Option ℕ → Option ℕ
unfolding count_value
count_value_changed supported count badge = update_badge supported (count_value count) badge

-- The badge after each change of the value in turn.
pub run_badge : Bool → List (Option ℕ) → Option ℕ → Option ℕ
run_badge supported [] badge = badge
run_badge supported (count ∷ later) badge =
    run_badge supported later (count_value_changed supported count badge)
