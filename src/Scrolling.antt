-- ===== src/Scrolling.antt =====
-- app/javascript/controllers/scroll_bottom_controller.js: a list of messages that stays at its end.
-- Positions are whole pixels; a smooth scroll is taken at its final position. The browser keeps
-- `scrollTop` between 0 and `scrollHeight - clientHeight`.
pub mod Following
mod Examples
use moneygun.Base.{ℕ, ◌+◌, ◌-◌, Bool, true, false, ◌||◌, List, [], ◌∷◌, ltb, if◌then◌else◌}

pub record Pane : Type 0 where
  pub has_messages : Bool
  pub scroll_height : ℕ
  pub scroll_top : ℕ
  pub client_height : ℕ
  pub force_scroll : Bool
  pub observing : Bool

abbrev pub bottom : Pane → ℕ
bottom p = p.scroll_height - p.client_height

-- `scrollToBottom()`: the position `scrollHeight` is past the end, and the browser takes the end.
pub scroll_to_bottom : Pane → Pane
scroll_to_bottom p = if p.has_messages then record p { scroll_top = bottom p } else p

-- `scrollHeight - scrollTop - clientHeight < 100`, with no subtraction, since a number of JavaScript
-- may be negative.
pub is_near_bottom : Pane → Bool
is_near_bottom p =
    if p.has_messages then ltb p.scroll_height (p.scroll_top + p.client_height + 100) else true

pub connect : Pane → Pane
unfolding scroll_to_bottom
connect p =
    let q = record (scroll_to_bottom p) { force_scroll = false } in
    if p.has_messages then record q { observing = true } else q

pub disconnect : Pane → Pane
disconnect p = record p { observing = false }

pub force_next_scroll : Pane → Pane
force_next_scroll p = record p { force_scroll = true }

-- The callback of the observer.
pub on_mutation : Pane → Pane
unfolding scroll_to_bottom is_near_bottom
on_mutation p =
    if p.force_scroll || is_near_bottom p
    then record (scroll_to_bottom p) { force_scroll = false }
    else p

pub data Event : Type 0 where
  -- content of a height is added at the end
  grows : ℕ → Event
  -- the user scrolls up from the end by a distance
  scrolls : ℕ → Event
  forces : Event

pub step : Event → Pane → Pane
unfolding on_mutation force_next_scroll
step (grows h) p =
    let q = record p { scroll_height = p.scroll_height + h } in
    if p.observing then on_mutation q else q
step (scrolls d) p = record p { scroll_top = bottom p - d }
step forces p = force_next_scroll p
