-- ===== src/Scrolling/Examples.antt =====
-- A pane of 300 pixels over 1000 pixels of messages.
use moneygun.Base.{◌≡◌, refl, true, false}
use moneygun.Scrolling.{Pane, connect}

abbrev pane : Pane
pane = record {
  has_messages = true;
  scroll_height = 1000;
  scroll_top = 700;
  client_height = 300;
  force_scroll = false;
  observing = true;
}

connects : connect (record pane { scroll_top = 0; observing = false }) ≡ pane
unfolding connect
connects = refl
