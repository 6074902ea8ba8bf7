-- ===== src/Modal/Examples.antt =====
-- A dialog in the page's modal frame.
use moneygun.Base.{◌≡◌, refl, true, false, [], ◌∷◌, none, some, codes}
use moneygun.Modal.{
  Modal, connect, close, mousedown, click, escape, close_event, submit_end, step, run, handle_close,
}

abbrev edit_dialog : Modal
edit_dialog = record {
  element = 10;
  focusable = some 11;
  is_open = false;
  close_due = false;
  listening = false;
  body_locked = false;
  focus = some 7;
  previously_focused = none;
  frame = some (record { src = some (codes "/edit"); content = codes "<form>" });
  mousedown_target = none;
}

opens : (connect edit_dialog).focus ≡ some 11
unfolding connect
opens = refl

empties_frame :
    (run (escape ∷ close_event ∷ []) (connect edit_dialog)).frame
    ≡ some (record { src = none; content = [] })
unfolding run step connect close handle_close
empties_frame = refl

still_open : (run (mousedown 11 ∷ click 10 ∷ []) (connect edit_dialog)).is_open ≡ true
unfolding run step connect close
still_open = refl

closing : (run (submit_end true ∷ []) (connect edit_dialog)).close_due ≡ true
unfolding run step connect close
closing = refl
