-- ===== src/Visitable.antt =====
-- app/javascript/controllers/visitable_controller.js, an area that visits a URL when it is clicked, and
-- click_controller.js, a key or a click passed on to an element. An event's target is given by the
-- chain of elements from it up to the root, as `closest` walks it.
pub mod Targets
mod Examples
use moneygun.Base.{
  Bool, true, false, not, ◌&&◌, ◌||◌, List, [], ◌∷◌, Option, none, some, Text, codes, text_eq,
  or_value, truthy, if◌then◌else◌,
}

pub data Role : Type 0 where
  menu_role button_role other_role : Role

-- An element: its tag name in capitals, and its role.
pub record Element : Type 0 where
  pub tag_name : Text
  pub role : Role

abbrev pub one_of : Text → List Text → Bool
one_of t [] = false
one_of t (u ∷ us) = text_eq t u || one_of t us

abbrev pub interactive_tags : List Text
interactive_tags =
    codes "A"
    ∷ codes "BUTTON"
    ∷ codes "INPUT"
    ∷ codes "SELECT"
    ∷ codes "TEXTAREA"
    ∷ codes "DIALOG"
    ∷ codes "DETAILS"
    ∷ codes "SUMMARY"
    ∷ []

has_role : Role → Bool
has_role menu_role = true
has_role button_role = true
has_role other_role = false

-- The selector of `closest`, on one element.
pub matches : Element → Bool
unfolding has_role
matches e = one_of e.tag_name interactive_tags || has_role e.role

-- Whether `closest` finds an element.
pub closest : List Element → Bool
closest [] = false
closest (e ∷ es) = matches e || closest es

pub record Target : Type 0 where
  pub is_connected : Bool
  pub chain : List Element

pub is_interactive_element : Target → Bool
is_interactive_element t = if not t.is_connected then true else closest t.chain

-- The data attributes of the area.
pub record Area : Type 0 where
  pub url : Option Text
  pub turbo_frame : Option Text
  pub turbo_action : Option Text

-- The calls of `Turbo.visit`; an option that is absent is `none`.
pub data Visit : Type 0 where
  no_visit : Visit
  visit : Text → Visit
  visit_with : Text → Option Text → Option Text → Visit

-- A truthy value.
pub present : Option Text → Option Text
present none = none
present (some []) = none
present (some (c ∷ cs)) = some (c ∷ cs)

visit_options : Text → Option Text → Option Text → Visit
visit_options url none none = visit url
visit_options url frame action = visit_with url frame action

visit_url : Option Text → Area → Visit
unfolding visit_options
visit_url none a = no_visit
visit_url (some url) a = visit_options url (present a.turbo_frame) (present a.turbo_action)

pub on_visit : Target → Area → Visit
unfolding visit_url present
on_visit t a = if is_interactive_element t then no_visit else visit_url (present a.url) a

abbrev pub form_elements : List Text
form_elements =
    codes "INPUT"
    ∷ codes "TEXTAREA"
    ∷ codes "SELECT"
    ∷ codes "TRIX-EDITOR"
    ∷ codes "RHINO-EDITOR"
    ∷ []

-- What the `click` action does: whether it prevents the default, and whether it clicks the element.
pub record Effect : Type 0 where
  pub prevented : Bool
  pub clicked : Bool

pub on_click : Element → Text → Effect
on_click target type =
    if one_of target.tag_name form_elements
    then record { prevented = false; clicked = false }
    else record { prevented = text_eq type (codes "keydown"); clicked = true }
