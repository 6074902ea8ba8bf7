-- ===== src/Sharing.antt =====
-- app/javascript/controllers/share_controller.js: the browser's share sheet, or else the URL copied to
-- the clipboard and a check mark for two seconds. `timers` holds what each running timer will put
-- into the label, the oldest first; the last of them is the one that `_timeout` names.
pub mod Label
mod Examples
use moneygun.Base.{
  Bool, true, false, List, [], ◌∷◌, ◌++◌, Option, none, some, Text, or_text, if◌then◌else◌,
}

pub record Share : Type 0 where
  pub url_value : Text
  pub title_value : Text
  pub success_text : Text
  pub location : Text
  pub can_share : Bool
  pub label : Option Text
  pub timers : List Text
  -- whether `_timeout` names a timer
  pub has_timeout : Bool
  pub clipboard : Option Text
  pub shared : List (Text × Text)

shared_url : Share → Text
shared_url s = or_text s.url_value s.location

-- The label after a copy, where the element has one.
mark_copied : Option Text → Share → Share
mark_copied none s = s
mark_copied (some original) s = record s {
  label = some s.success_text;
  timers = s.timers ++ original ∷ [];
  has_timeout = true;
}

-- `share()`, with a clipboard that takes the text. An error of the share sheet is ignored.
pub share : Share → Share
unfolding shared_url mark_copied
share s =
    if s.can_share
    then record s { shared = s.shared ++ (s.title_value, shared_url s) ∷ [] }
    else mark_copied s.label (record s { clipboard = some (shared_url s) })

set_label : Text → Option Text → Option Text
set_label t none = none
set_label t (some l) = some t

fire : List Text → Share → Share
unfolding set_label
fire [] s = s
fire (original ∷ rest) s = record s { label = set_label original s.label; timers = rest }

-- The oldest timer runs: all wait for the same time.
pub timer : Share → Share
unfolding fire
timer s = fire s.timers s

drop_last : List Text → List Text
drop_last [] = []
drop_last (t ∷ []) = []
drop_last (t ∷ u ∷ ts) = t ∷ drop_last (u ∷ ts)

-- `disconnect()` clears the timer that `_timeout` names, which is the last one if it still runs.
pub disconnect : Share → Share
unfolding drop_last
disconnect s = if s.has_timeout then record s { timers = drop_last s.timers } else s
