-- ===== src/ServiceWorker/Policy.antt =====
-- Which response a request gets, and which window a notification brings up.
use moneygun.Base.{
  ap, ℕ, suc, ◌≡◌, refl, ◌↔◌, inl, inr, Bool, true, ◌&&◌, List, [], ◌∷◌, Option, none, some, Text,
  codes, text_eq, text_eq_iff, if◌then◌else◌, arith, Bool-cases,
}
use moneygun.ServiceWorker.{
  Request, browser_default, respond_with, on_fetch, Client, Action, focus_client, open_window,
  nothing, find_client, on_notification_click,
}

-- A page load: a GET request for a document.
abbrev pub IsPageLoad : Request → Type 0
IsPageLoad r = (r.method ≡ codes "GET") × (r.destination ≡ codes "document")

module _ {ℓ} {R : Type ℓ} (fetch match_cache : Request → Option R) (r : Request) where
  -- The worker answers exactly the page loads; all other requests are left to the browser.
  pub on_fetch_default : (on_fetch fetch match_cache r ≡ browser_default) ↔ ¬ IsPageLoad r
  unfolding on_fetch
  on_fetch_default =
      ground
        (arith, text_eq_iff r.method (codes "GET"), text_eq_iff r.destination (codes "document"))

  -- A page load that the network answers gets that response, whatever the cache holds.
  pub on_fetch_online :
      (response : R)
      → IsPageLoad r
      → fetch r ≡ some response
      → on_fetch fetch match_cache r ≡ respond_with (some response)
  unfolding on_fetch
  on_fetch_online response h f =
      ground
        (arith, text_eq_iff r.method (codes "GET"), text_eq_iff r.destination (codes "document"))

  -- A page load that the network fails gets what the cache has for the request.
  pub on_fetch_offline :
      IsPageLoad r → fetch r ≡ none → on_fetch fetch match_cache r ≡ respond_with (match_cache r)
  unfolding on_fetch
  on_fetch_offline h f =
      ground
        (arith, text_eq_iff r.method (codes "GET"), text_eq_iff r.destination (codes "document"))

module _ (pathname : Text → Text) where
  -- The window can be focused and shows the path of the notification.
  abbrev pub Fits : Text → Client → Type 0
  Fits path c = (pathname c.url ≡ path) × (c.can_focus ≡ true)

  -- The first window of the list, counted from `i`, that fits.
  pub data First (path : Text) : ℕ → List Client → ℕ → Type 0 where
    here : {i : ℕ} {c : Client} {cs : List Client} → Fits path c → First path i (c ∷ cs) i
    later :
        {i j : ℕ} {c : Client} {cs : List Client}
        → ¬ Fits path c
        → First path (suc i) cs j
        → First path i (c ∷ cs) j

  abbrev pub NoneFits : Text → List Client → Type 0
  NoneFits path [] = Unit
  NoneFits path (c ∷ cs) = (¬ Fits path c) × NoneFits path cs

  find_client-First :
      (can_open : Bool) (path : Text) (i j : ℕ) (cs : List Client)
      → find_client pathname can_open path i cs ≡ focus_client j
      → First path i cs j
  unfolding find_client
  find_client-First can_open path i j [] h = ground arith
  find_client-First can_open path i j (c ∷ cs) h =
      elim (Bool-cases (text_eq (pathname c.url) path && c.can_focus)) [
        | inl e ↦
            first_here i j c cs (ground (arith, text_eq_iff (pathname c.url) path)) (ground arith)
        | inr e ↦
            later (λ f. ground (arith, text_eq_iff (pathname c.url) path))
              (find_client-First can_open path (suc i) j cs (ground arith))
      ]
    where
      first_here :
          (i j : ℕ) (c : Client) (cs : List Client) → Fits path c → i ≡ j → First path i (c ∷ cs) j
      first_here i j c cs f q = rw (← q) (here f)

  First-find_client :
      (can_open : Bool) (path : Text) {i j : ℕ} {cs : List Client}
      → First path i cs j
      → find_client pathname can_open path i cs ≡ focus_client j
  unfolding find_client
  First-find_client can_open path (here {i = i} {c = c} {cs = cs} f) =
      ground (arith, text_eq_iff (pathname c.url) path)
  First-find_client can_open path (later {i = i} {j = j} {c = c} {cs = cs} f g) =
      ground (arith, f, text_eq_iff (pathname c.url) path, First-find_client can_open path g)

  -- A click on a notification closes it, and focuses a window exactly if that is the first one that
  -- can be focused and shows the notification's path.
  pub click_focuses_iff :
      (can_open : Bool) (path : Text) (j : ℕ) (clients : List Client)
      → (on_notification_click pathname can_open path clients ≡ (true, focus_client j))
        ↔ First path 0 clients j
  unfolding on_notification_click
  click_focuses_iff can_open path j clients = (
    λ h. find_client-First can_open path 0 j clients (ap (λ (p : Bool × Action). p.1) h),
    λ f. ap (λ a. (true, a)) (First-find_client can_open path f),
  )

  NoneFits-find_client :
      (can_open : Bool) (path : Text) (i : ℕ) (cs : List Client)
      → NoneFits path cs
      → find_client pathname can_open path i cs ≡ (if can_open then open_window path else nothing)
  unfolding find_client
  NoneFits-find_client can_open path i [] h = refl
  NoneFits-find_client can_open path i (c ∷ cs) h = ground (
    arith,
    h.0,
    text_eq_iff (pathname c.url) path,
    NoneFits-find_client can_open path (suc i) cs h.1,
  )

  -- Where no window fits, the click opens a new one at the path, if the browser can do that.
  pub click_opens :
      (can_open : Bool) (path : Text) (clients : List Client)
      → NoneFits path clients
      → on_notification_click pathname can_open path clients
        ≡ (true, if can_open then open_window path else nothing)
  unfolding on_notification_click
  click_opens can_open path clients h =
      ap (λ a. (true, a)) (NoneFits-find_client can_open path 0 clients h)
