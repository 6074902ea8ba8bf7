-- ===== src/Sharing/Examples.antt =====
-- A share button in a browser without a share sheet.
use moneygun.Base.{false, [], none, some, codes}
use moneygun.Sharing.{Share}

abbrev button : Share
button = record {
  url_value = [];
  title_value = codes "Page";
  success_text = codes "ok";
  location = codes "/here";
  can_share = false;
  label = some (codes "Share");
  timers = [];
  has_timeout = false;
  clipboard = none;
  shared = [];
}
