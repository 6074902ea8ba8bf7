-- ===== src/Lightbox/Examples.antt =====
-- A picture that is opened and closed.
use moneygun.Base.{◌≡◌, refl, true, [], ◌∷◌, none, some, codes, text_eq}
use moneygun.Lightbox.{
  Lightbox, Image, backdrop, picture, other, connect, disconnect, open_image, on_click, opens,
  clicks, step, run,
}

abbrev empty_page : Lightbox
empty_page = record { dialog = none; body = other 1 ∷ [] }

abbrev cat : Image
cat = record { tag_name = codes "IMG"; src = codes "cat.png" }

opened :
    (run (opens cat ∷ clicks picture ∷ []) (connect empty_page)).dialog
    ≡ some (record { is_open = true; src = some (codes "cat.png") })
unfolding run step connect open_image on_click text_eq
opened = refl

closed :
    (disconnect (run (opens cat ∷ clicks backdrop ∷ []) (connect empty_page))).body ≡ other 1 ∷ []
unfolding run step connect open_image on_click text_eq disconnect
closed = refl
