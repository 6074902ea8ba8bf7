-- ===== src/Clipboard/Examples.antt =====
-- A link with a copy button.
use moneygun.Base.{◌≡◌, refl, false, [], none, some, codes, trim}
use moneygun.Clipboard.{Clipboard, other, source_text}

abbrev field : Clipboard
field = record {
  success_content = codes "Copied";
  success_message = [];
  failure_content = codes "Failed";
  button = some (codes "Copy");
  default_content = none;
  has_status = false;
  status = some [];
  reset_timer = false;
  announcement = none;
}

trims : source_text (other (codes " a b ")) ≡ codes "a b"
unfolding source_text trim
trims = refl
