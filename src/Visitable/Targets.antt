-- ===== src/Visitable/Targets.antt =====
-- Which clicks visit, and which keys are passed on.
use moneygun.Base.{
  ◌∙◌, ap, Bool-cases, inl, inr, ◌&&◌, ◌≡◌, ◌≢◌, ◌↔◌, Bool, true, false, not, ◌||◌, List, [], ◌∷◌,
  Option, none, some, Text, codes, text_eq, text_eq_iff, All, if◌then◌else◌, arith,
}
use moneygun.Visitable.{
  Element, matches, closest, Target, is_interactive_element, Area, no_visit, visit, visit_with,
  present, on_visit, one_of, form_elements, on_click,
}

abbrev pub has_value : Option Text → Bool
has_value none = false
has_value (some s) = true

-- No element from the target up is interactive.
abbrev pub IsPlain : Target → Type 0
IsPlain t = (t.is_connected ≡ true) × All (λ e. matches e ≡ false) t.chain

closest-All : (es : List Element) → (closest es ≡ false) ↔ All (λ e. matches e ≡ false) es
unfolding closest
closest-All [] = ground arith
closest-All (e ∷ es) = ground (arith, closest-All es)

interactive-IsPlain : (t : Target) → (is_interactive_element t ≡ false) ↔ IsPlain t
unfolding is_interactive_element
interactive-IsPlain t = ground (arith, closest-All t.chain)

-- A click visits exactly if its target is still on the page, neither it nor an element around it is
-- interactive, and the area names a URL.
pub visits_iff :
    (t : Target) (a : Area) → (on_visit t a ≢ no_visit) ↔ (IsPlain t × (present a.url ≢ none))
unfolding on_visit
visits_iff t a = ground (arith, interactive-IsPlain t)

-- Where the click visits, the URL and the options are those of the area: without a frame and an action
-- there are no options, and otherwise an empty one of the two is left out.
pub visit_takes_options :
    (t : Target) (a : Area) (url : Text)
    → IsPlain t
    → present a.url ≡ some url
    → on_visit t a ≡ (
        if has_value (present a.turbo_frame) || has_value (present a.turbo_action)
        then visit_with url (present a.turbo_frame) (present a.turbo_action)
        else visit url)
unfolding on_visit
visit_takes_options t a url p h = ground (arith, interactive-IsPlain t)

one_of-All : (t : Text) (us : List Text) → (one_of t us ≡ false) ↔ All (λ u. t ≢ u) us
one_of-All t [] = ground arith
one_of-All t (u ∷ us) = ground (arith, text_eq_iff t u, one_of-All t us)

on_click_tests :
    (target : Element) (type : Text)
    → ((on_click target type).clicked ≡ not (one_of target.tag_name form_elements))
      × ((on_click target type).prevented
          ≡ (not (one_of target.tag_name form_elements) && text_eq type (codes "keydown")))
unfolding on_click
on_click_tests target type = elim (Bool-cases (one_of target.tag_name form_elements)) [
  | inl e ↦ rw e (ground (arith, e))
  | inr e ↦ rw e (ground (arith, e))
]

-- An event in a form control is left to it. Any other clicks the element once, and is prevented
-- exactly if it is a key.
pub on_click_clicks :
    (target : Element) (type : Text)
    → (((on_click target type).clicked ≡ true) ↔ All (λ u. target.tag_name ≢ u) form_elements)
      × (((on_click target type).prevented ≡ true)
          ↔ (((on_click target type).clicked ≡ true) × (type ≡ codes "keydown")))
on_click_clicks target type =
    let tests = on_click_tests target type in
    let free = one_of-All target.tag_name form_elements in
    let key = text_eq_iff type (codes "keydown") in
    (
      (λ c. free.0 (ground (arith, tests)), λ p. tests.0 ∙ ap not (free.1 p)),
      (
        λ p. (ground (arith, tests), key.0 (ground (arith, tests))),
        λ q. ground (arith, tests, key.1 q.1),
      ),
    )
