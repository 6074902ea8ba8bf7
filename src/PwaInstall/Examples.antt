-- ===== src/PwaInstall/Examples.antt =====
-- A page in the browser, and one that is installed.
use moneygun.Base.{◌≡◌, refl, true, false, [], ◌∷◌, none}
use moneygun.PwaInstall.{Install, connect, offered, button, run}

abbrev browser : Install
browser = record {
  standalone = false;
  listening = false;
  deferred_prompt = none;
  installable = false;
  prompted = [];
  waiting = 0;
}

abbrev app : Install
app = record browser { standalone = true }

shows_prompt : (run (offered 5 ∷ button ∷ []) (connect browser)).prompted ≡ 5 ∷ []
unfolding run connect
shows_prompt = refl
