-- ===== src/PageTitle/Stripping.antt =====
-- What the title of an installed app reads.
use moneygun.Base.{
  ℕ, zero, suc, ◌+◌, ◌≡◌, refl, ◌∙◌, ap, ◌≢◌, true, false, List, [], ◌∷◌, ◌++◌, none, some, Text,
  arith, length,
}
use moneygun.PageTitle.{separator, last_index, substring, strip, Event, render, run, start}

last_index-append :
    (s t : Text) (k : ℕ) → last_index t ≡ some k → last_index (s ++ t) ≡ some (length s + k)
unfolding last_index
last_index-append [] t k h = ground arith
last_index-append (c ∷ s) t k h = ground (arith, last_index-append s t k h)

substring-append : (s t : Text) → substring (length s) (s ++ t) ≡ s
unfolding substring
substring-append [] t = refl
substring-append (c ∷ s) t = ap (λ z. c ∷ z) (substring-append s t)

strip_at : (c : ℕ) (s t : Text) → last_index t ≡ some 0 → strip ((c ∷ s) ++ t) ≡ c ∷ s
unfolding strip
strip_at c s t h = ground (arith, last_index-append (c ∷ s) t 0 h, substring-append (c ∷ s) t)

-- The name of an app: nothing that starts within " - name" but at its first character is a separator.
abbrev pub IsName : Text → Type 0
IsName app = last_index (separator ++ app) ≡ some 0

-- A title "page - name", for a page that is not empty, is stripped to "page".
pub strip_suffix :
    (page app : Text) → page ≢ [] → IsName app → strip (page ++ (separator ++ app)) ≡ page
strip_suffix [] app h n = absurd (h refl)
strip_suffix (c ∷ s) app h n = strip_at c s (separator ++ app) n

-- A title without the separator is left as it is.
pub strip_plain : (title : Text) → last_index title ≡ none → strip title ≡ title
unfolding strip
strip_plain title h = ground arith

-- Renders in a row.
pub renders : ℕ → List Event
renders zero = []
renders (suc n) = render ∷ renders n

run_stable : (n : ℕ) (title : Text) → strip title ≡ title → run true (renders n) title ≡ title
unfolding run renders
run_stable zero title h = refl
run_stable (suc n) title h = ap (run true (renders n)) h ∙ run_stable n title h

-- A page whose own title does not hold the separator keeps it through any number of renders.
pub renders_keep :
    (page app : Text) (n : ℕ)
    → page ≢ []
    → IsName app
    → last_index page ≡ none
    → run true (renders n) (start true (page ++ (separator ++ app))) ≡ page
unfolding start
renders_keep page app n h q p =
    ap (run true (renders n)) (strip_suffix page app h q) ∙ run_stable n page (strip_plain page p)

-- In a browser window the title is never changed.
window_keeps : (n : ℕ) (title : Text) → run false (renders n) (start false title) ≡ title
unfolding run start renders
window_keeps zero title = refl
window_keeps (suc n) title = window_keeps n title
