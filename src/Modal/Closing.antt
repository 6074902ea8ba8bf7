-- ===== src/Modal/Closing.antt =====
-- What a modal dialog leaves behind once it is closed, and what closes it.
use moneygun.Base.{◌∙◌, ◌↔◌, ℕ, ◌≡◌, refl, true, false, ◌||◌, List, [], ◌∷◌, some, arith}
use moneygun.Modal.{
  Modal, connect, disconnect, close, click_outside, handle_close, Event, mousedown, click,
  close_event, step, run,
}

-- While the controller is connected the body is locked exactly from the opening of the dialog up to
-- its `close` event.
pub record IsLive (m : Modal) : Type 0 where
  pub listens : m.listening ≡ true
  pub locked : m.body_locked ≡ (m.is_open || m.close_due)
  pub open_once : m.is_open ≡ true → m.close_due ≡ false

connect-IsLive : (m : Modal) → m.close_due ≡ false → IsLive (connect m)
unfolding connect
connect-IsLive m h = ground arith

step-IsLive : (e : Event) (m : Modal) → IsLive m → IsLive (step e m)
unfolding step close handle_close
step-IsLive (mousedown k) m v = ground arith
step-IsLive close_event m v = ground arith
step-IsLive _ m v = ground arith

run-IsLive : (es : List Event) (m : Modal) → IsLive m → IsLive (run es m)
unfolding run
run-IsLive [] m v = v
run-IsLive (e ∷ es) m v = run-IsLive es (step e m) (step-IsLive e m v)

step_keeps_previous : (e : Event) (m : Modal) → (step e m).previously_focused ≡ m.previously_focused
unfolding step close handle_close
step_keeps_previous (mousedown k) m = ground arith
step_keeps_previous close_event m = ground arith
step_keeps_previous _ m = ground arith

run_keeps_previous :
    (es : List Event) (m : Modal) → (run es m).previously_focused ≡ m.previously_focused
unfolding run
run_keeps_previous [] m = refl
run_keeps_previous (e ∷ es) m = run_keeps_previous es (step e m) ∙ step_keeps_previous e m

-- Whatever happens to a connected dialog, the body is locked while it is open, and is unlocked once
-- it is closed and its `close` event has come.
pub run_lock :
    (m : Modal) (es : List Event)
    → m.close_due ≡ false
    → (run es (connect m)).body_locked
      ≡ ((run es (connect m)).is_open || (run es (connect m)).close_due)
run_lock m es h = (run-IsLive es (connect m) (connect-IsLive m h)).locked

connect_remembers : (m : Modal) → (connect m).previously_focused ≡ m.focus
unfolding connect
connect_remembers m = ground arith

close_event_returns :
    (m : Modal) (k : ℕ)
    → IsLive m
    → m.previously_focused ≡ some k
    → m.close_due ≡ true
    → ((step close_event m).focus ≡ some k) × ((step close_event m).body_locked ≡ false)
unfolding step handle_close
close_event_returns m k v p h = ground arith

-- When the `close` event of a connected dialog comes, after any history, the focus returns to the
-- element that had it when the dialog opened, and the body is unlocked.
pub close_event_restores :
    (m : Modal) (es : List Event) (k : ℕ)
    → m.close_due ≡ false
    → m.focus ≡ some k
    → (run es (connect m)).close_due ≡ true
    → let c = step close_event (run es (connect m)) in (c.focus ≡ some k) × (c.body_locked ≡ false)
close_event_restores m es k h f d =
    close_event_returns (run es (connect m)) k (run-IsLive es (connect m) (connect-IsLive m h))
      (run_keeps_previous es (connect m) ∙ connect_remembers m ∙ f) d

-- A press of the mouse and a click close an open dialog exactly if both fall on the dialog element
-- itself: a selection that is dragged out of the box does not close it.
pub click_outside_closes :
    (m : Modal) (from to : ℕ)
    → m.is_open ≡ true
    → ((step (click to) (step (mousedown from) m)).is_open ≡ false)
      ↔ ((from ≡ m.element) × (to ≡ m.element))
unfolding step click_outside close
click_outside_closes m from to h = ground arith

-- A controller that is disconnected while its dialog is open leaves the body locked: no later
-- event of the dialog unlocks it.
step_unheard :
    (e : Event) (m : Modal)
    → m.listening ≡ false
    → ((step e m).listening ≡ false) × ((step e m).body_locked ≡ m.body_locked)
unfolding step close
step_unheard (mousedown k) m h = ground arith
step_unheard close_event m h = ground arith
step_unheard _ m h = ground arith

run_unheard :
    (es : List Event) (m : Modal) → m.listening ≡ false → (run es m).body_locked ≡ m.body_locked
unfolding run
run_unheard [] m h = refl
run_unheard (e ∷ es) m h = let s = step_unheard e m h in run_unheard es (step e m) s.0 ∙ s.1

disconnect_unheard :
    (m : Modal) → ((disconnect m).listening ≡ false) × ((disconnect m).body_locked ≡ m.body_locked)
unfolding disconnect
disconnect_unheard m = ground arith

-- If the controller is disconnected while the dialog is open, the body stays locked, whatever
-- happens to the dialog afterwards.
pub disconnect_leaves_lock :
    (m : Modal) (es later : List Event)
    → m.close_due ≡ false
    → (run es (connect m)).is_open ≡ true
    → (run later (disconnect (run es (connect m)))).body_locked ≡ true
disconnect_leaves_lock m es later h o =
    let n = run es (connect m) in
    run_unheard later (disconnect n) (disconnect_unheard n).0
    ∙ (disconnect_unheard n).1
    ∙ ground (arith, run_lock m es h)
