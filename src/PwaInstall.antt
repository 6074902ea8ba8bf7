-- ===== src/PwaInstall.antt =====
-- app/javascript/controllers/pwa_install_controller.js: the button that shows the browser's install
-- prompt. A prompt event is a number; `prompted` lists the events whose `prompt()` was called, and
-- `waiting` counts the calls of `promptInstall` that await the user's choice.
pub mod Prompt
mod Examples
use moneygun.Base.{
  ℕ, zero, suc, ◌+◌, Bool, true, false, List, [], ◌∷◌, ◌++◌, Option, none, some, if◌then◌else◌,
}

pub record Install : Type 0 where
  pub standalone : Bool
  pub listening : Bool
  pub deferred_prompt : Option ℕ
  pub installable : Bool
  pub prompted : List ℕ
  pub waiting : ℕ

pub connect : Install → Install
connect s = if s.standalone then s else record s { listening = true }

pub disconnect : Install → Install
disconnect s = record s { listening = false }

pub before_install_prompt : ℕ → Install → Install
before_install_prompt event s = record s { deferred_prompt = some event; installable = true }

pub app_installed : Install → Install
app_installed s = record s { deferred_prompt = none; installable = false }

-- `promptInstall()` up to its `await`.
begin_prompt : Option ℕ → Install → Install
begin_prompt none s = s
begin_prompt (some event) s = record s {
  prompted = s.prompted ++ event ∷ [];
  waiting = s.waiting + 1;
}

pub prompt_install : Install → Install
unfolding begin_prompt
prompt_install s = begin_prompt s.deferred_prompt s

-- The rest of it, for one of the calls that wait.
finish_prompt : ℕ → Install → Install
finish_prompt zero s = s
finish_prompt (suc n) s = record s { waiting = n; deferred_prompt = none; installable = false }

pub user_chose : Install → Install
unfolding finish_prompt
user_chose s = finish_prompt s.waiting s

pub data Event : Type 0 where
  offered : ℕ → Event
  installed button chosen disconnected : Event

pub step : Event → Install → Install
unfolding before_install_prompt app_installed prompt_install user_chose disconnect
step (offered event) s = if s.listening then before_install_prompt event s else s
step installed s = if s.listening then app_installed s else s
step button s = prompt_install s
step chosen s = user_chose s
step disconnected s = disconnect s

pub run : List Event → Install → Install
unfolding step
run [] s = s
run (e ∷ es) s = run es (step e s)
