-- ===== src/ServiceWorker.antt =====
-- app/views/pwa/service-worker.js: the fetch policy, push messages and clicks on notifications. The
-- network, the cache and the parsing of URLs and of messages are the browser's: parameters of the functions.
pub mod Policy
mod Examples
use moneygun.Base.{
  ℕ, suc, Bool, true, false, not, ◌&&◌, List, [], ◌∷◌, ◌++◌, Option, none, some, Text, codes,
  text_eq, if◌then◌else◌,
}

pub record Request : Type 0 where
  pub method : Text
  pub destination : Text
  pub url : Text

-- What the browser does with a request: its default, or the worker's response; a missing response
-- is a network error.
pub data Handling {ℓ} (R : Type ℓ) : Type ℓ where
  browser_default : Handling R
  respond_with : Option R → Handling R

-- `fetch(request).catch(() => caches.match(request))`; a fetch that is rejected is `none`.
pub network_first {ℓ} : {R : Type ℓ} → Option R → Option R → Option R
network_first none cached = cached
network_first (some r) cached = some r

-- The `fetch` listener.
pub on_fetch {ℓ} : {R : Type ℓ} → (Request → Option R) → (Request → Option R) → Request → Handling R
unfolding network_first
on_fetch fetch match_cache r =
    if not (text_eq r.method (codes "GET"))
    then browser_default
    else if not (text_eq r.destination (codes "document"))
    then browser_default
    else respond_with (network_first (fetch r) (match_cache r))

-- The `push` listener: the notifications shown, each a title with its options, after the data of an
-- event is parsed; data that does not parse shows none.
show_parsed {ℓ} : {O : Type ℓ} → Option (Text × O) → List (Text × O) → List (Text × O)
show_parsed none shown = shown
show_parsed (some message) shown = shown ++ message ∷ []

pub on_push {ℓ} :
    {O : Type ℓ} → (Text → Option (Text × O)) → Text → List (Text × O) → List (Text × O)
unfolding show_parsed
on_push json event_data shown = show_parsed (json event_data) shown

pub record Client : Type 0 where
  pub url : Text
  pub can_focus : Bool

-- What a click on a notification leads to.
pub data Action : Type 0 where
  focus_client : ℕ → Action
  open_window : Text → Action
  nothing : Action

after_loop : Bool → Text → Action
after_loop can_open path = if can_open then open_window path else nothing

module _ (pathname : Text → Text) where
  -- The loop over the windows, from index `i`.
  pub find_client : Bool → Text → ℕ → List Client → Action
  unfolding after_loop
  find_client can_open path i [] = after_loop can_open path
  find_client can_open path i (c ∷ cs) =
      let rest = find_client can_open path (suc i) cs in
      if text_eq (pathname c.url) path && c.can_focus then focus_client i else rest

  -- The `notificationclick` listener: whether the notification is closed, and the action.
  pub on_notification_click : Bool → Text → List Client → Bool × Action
  on_notification_click can_open path clients = (true, find_client can_open path 0 clients)
