-- ===== src/Transient.antt =====
-- app/javascript/controllers/flash_controller.js, auto_remove_controller.js and
-- element_remove_controller.js: elements that go away, by a timer or by a click. Also
-- debounce_controller.js, which submits a form after a delay. Times are milliseconds.
pub mod Removal
mod Examples
use moneygun.Base.{
  ℕ, ◌+◌, Bool, true, false, List, [], ◌∷◌, ◌++◌, Option, none, some, ltb, leb, map, if◌then◌else◌,
}

-- `due` is the time at which the timer of the controller removes the element.
pub record Element : Type 0 where
  pub attached : Bool
  pub due : Option ℕ

-- `this.element.remove()`.
remove : Element → Element
remove e = record e { attached = false }

-- `connect()` of the flash controller at a time, with the value `autoDismiss`.
pub connect_flash : ℕ → ℕ → Element → Element
connect_flash auto_dismiss now e =
    if ltb 0 auto_dismiss then record e { due = some (now + auto_dismiss) } else e

pub disconnect_flash : Element → Element
disconnect_flash e = record e { due = none }

pub dismiss_flash : Element → Element
unfolding remove
dismiss_flash e = remove e

-- `connect()` of the auto-remove controller, which has no `disconnect()`.
pub connect_auto_remove : ℕ → ℕ → Element → Element
connect_auto_remove delay now e = record e { due = some (now + delay) }

-- `click()` of the element-remove controller.
pub click_remove : Element → Element
unfolding remove
click_remove e = remove e

run_due : Option ℕ → ℕ → Element → Element
unfolding remove
run_due none now e = e
run_due (some due) now e = if leb due now then record (remove e) { due = none } else e

-- The timers up to a time.
pub elapse : ℕ → Element → Element
unfolding run_due
elapse now e = run_due e.due now e

-- Another script takes the element out of the page and puts it back.
pub detach : Element → Element
detach e = record e { attached = false }

pub reattach : Element → Element
reattach e = record e { attached = true }

-- `submit(event)` of the debounce controller, for the times of its events: the times at which it
-- submits the form. No timer is cleared.
pub delayed_submits : List ℕ → List ℕ
delayed_submits [] = []
delayed_submits (now ∷ later) = (now + 300) ∷ delayed_submits later
