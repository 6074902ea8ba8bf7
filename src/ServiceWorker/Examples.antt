-- ===== src/ServiceWorker/Examples.antt =====
-- Requests and windows of an app that runs offline.
use moneygun.Base.{ℕ, ◌≡◌, refl, true, List, [], ◌∷◌, Option, none, some, codes, Text, text_eq}
use moneygun.ServiceWorker.{on_fetch, respond_with, browser_default, on_push, Request, Client}

abbrev page : Request
page = record { method = codes "GET"; destination = codes "document"; url = codes "/" }

abbrev form : Request
form = record page { method = codes "POST" }

abbrev network_down : Request → Option ℕ
network_down r = none

abbrev cached : Request → Option ℕ
cached r = some 200

offline_page : on_fetch network_down cached page ≡ respond_with (some 200)
unfolding on_fetch text_eq
offline_page = refl

posts_pass : on_fetch network_down cached form ≡ browser_default
unfolding on_fetch text_eq
posts_pass = refl

-- The test data name windows by their paths.
abbrev pathname : Text → Text
pathname url = url

abbrev windows : List Client
windows =
    record { url = codes "/a"; can_focus = true }
    ∷ record { url = codes "/b"; can_focus = true }
    ∷ []

-- The test data of a push message are its title.
abbrev plain : Text → Option (Text × ℕ)
plain [] = none
plain (c ∷ cs) = some (c ∷ cs, 0)

pushed : on_push plain (codes "Hi") (on_push plain [] []) ≡ (codes "Hi", 0) ∷ []
unfolding on_push
pushed = refl
