-- ===== src/Lightbox/Cleanup.antt =====
-- What is shown, and what is left when the controller goes.
use moneygun.Base.{
  ℕ, ◌≡◌, refl, ap, Bool, true, false, not, List, [], ◌∷◌, ◌++◌, Option, none, some, keep_if, arith,
}
use moneygun.Lightbox.{
  Node, lightbox, other, is_lightbox, Dialog, Lightbox, connect, disconnect, open_image, on_click,
  Event, opens, clicks, step, run,
}

abbrev pub others : List ℕ → List Node
others [] = []
others (k ∷ ks) = other k ∷ others ks

body_back :
    (ks : List ℕ) → keep_if (λ n. not (is_lightbox n)) (others ks ++ lightbox ∷ []) ≡ others ks
body_back [] = refl
body_back (k ∷ ks) = ap (λ z. other k ∷ z) (body_back ks)

abbrev pub has_dialog : Option Dialog → Bool
has_dialog none = false
has_dialog (some d) = true

record IsBuilt (bs : List ℕ) (l : Lightbox) : Type 0 where
  built : has_dialog l.dialog ≡ true
  placed : l.body ≡ others bs ++ lightbox ∷ []

connect-IsBuilt : (bs : List ℕ) (l : Lightbox) → l.body ≡ others bs → IsBuilt bs (connect l)
unfolding connect
connect-IsBuilt bs l h = ground arith

step-IsBuilt : (bs : List ℕ) (e : Event) (l : Lightbox) → IsBuilt bs l → IsBuilt bs (step e l)
unfolding step open_image on_click
step-IsBuilt bs (opens img) l v = ground arith
step-IsBuilt bs (clicks t) l v = ground arith

run-IsBuilt : (bs : List ℕ) (es : List Event) (l : Lightbox) → IsBuilt bs l → IsBuilt bs (run es l)
unfolding run
run-IsBuilt bs [] l v = v
run-IsBuilt bs (e ∷ es) l v = run-IsBuilt bs es (step e l) (step-IsBuilt bs e l v)

disconnect_back : (bs : List ℕ) (l : Lightbox) → IsBuilt bs l → (disconnect l).body ≡ others bs
unfolding disconnect
disconnect_back bs l v = ground (arith, body_back bs)

-- Whatever was opened and clicked, a controller that disconnects takes its dialog out of the body.
pub lightbox_removed :
    (bs : List ℕ) (es : List Event) (l : Lightbox)
    → l.body ≡ others bs
    → (disconnect (run es (connect l))).body ≡ others bs
lightbox_removed bs es l h =
    disconnect_back bs (run es (connect l)) (run-IsBuilt bs es (connect l) (connect-IsBuilt bs l h))
