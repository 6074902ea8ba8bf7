-- ===== src/PageTitle/Examples.antt =====
-- Titles of an installed app.
use moneygun.Base.{◌≡◌, ◌≢◌, refl, false, [], ◌∷◌, none, codes}
use moneygun.PageTitle.{redirect_to, registrations, last_index, strip, prevents_submit}
use moneygun.PageTitle.Stripping.{IsName}

strips : strip (codes "Q - A - Projects - Moneygun") ≡ codes "Q - A - Projects"
unfolding strip last_index
strips = refl

plain_form : prevents_submit none ≡ false
unfolding prevents_submit
plain_form = refl

app-IsName : IsName (codes "Moneygun")
unfolding last_index
app-IsName = refl

projects_ne : codes "Projects" ≢ []
projects_ne h = cc

projects_plain : last_index (codes "Projects") ≡ none
unfolding last_index
projects_plain = refl

redirects : redirect_to (codes "/b") (redirect_to (codes "/a") []) ≡ codes "/a" ∷ codes "/b" ∷ []
unfolding redirect_to
redirects = refl

old_browser : registrations false ≡ []
unfolding registrations
old_browser = refl
