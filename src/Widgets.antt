-- ===== src/Widgets.antt =====
-- The smallest controllers of app/javascript/controllers: autonumeric_controller.js,
-- focus_controller.js and reset_form_controller.js. AutoNumeric is a package; modelled is what it is
-- given.
mod Examples
use moneygun.Base.{ℕ, Bool, true, false, Option, none, some, Text, codes, if◌then◌else◌}

-- The values of the controller; amounts are in hundredths.
pub record Values : Type 0 where
  pub min : ℕ
  pub max : ℕ
  pub currency : Text

pub default_values : Values
default_values = record { min = 0; max = 99999999; currency = codes "€" }

-- The options of AutoNumeric. `raw_value_divisor` is in hundredths too.
pub record Options : Type 0 where
  pub decimal_character : Text
  pub decimal_places : ℕ
  pub digit_group_separator : Text
  pub minimum_value : ℕ
  pub maximum_value : ℕ
  pub unformat_on_submit : Bool
  pub currency_symbol : Text
  pub currency_symbol_placement : Text
  pub modify_value_on_wheel : Bool
  pub raw_value_divisor : ℕ
  pub output_format : Text

-- `autoNumericOptions`.
pub auto_numeric_options : Values → Options
auto_numeric_options v = record {
  decimal_character = codes ".";
  decimal_places = 2;
  digit_group_separator = codes ",";
  minimum_value = v.min;
  maximum_value = v.max;
  unformat_on_submit = true;
  currency_symbol = v.currency;
  currency_symbol_placement = codes "p";
  modify_value_on_wheel = false;
  raw_value_divisor = 1;
  output_format = codes "number";
}

-- `connect()` of the focus controller asks for a frame; in that frame the element has the focus.
pub record Focusing : Type 0 where
  pub frame_due : Bool
  pub focused : Bool

pub connect_focus : Focusing → Focusing
connect_focus f = record f { frame_due = true }

pub next_frame : Focusing → Focusing
next_frame f = if f.frame_due then record f { frame_due = false; focused = true } else f

-- `reset(event)` of the reset-form controller: the content of the form, with its initial content.
pub reset_form : Bool → Text → Text → Text
reset_form success initial content = if success then initial else content
