-- ===== src/PageTitle.antt =====
-- app/javascript/application.js: the page title of an installed app, the guard that keeps the rich
-- text editor from submitting the form around it, the stream action `redirect_to`, and the
-- registration of the service worker.
pub mod Stripping
mod Examples
use moneygun.Base.{
  ℕ, zero, suc, ◌+◌, Bool, true, false, ◌&&◌, ◌==◌, List, [], ◌∷◌, ◌++◌, Option, none, some, Text,
  codes, if◌then◌else◌,
}

abbrev pub separator : Text
separator = codes " - "

-- The text starts with the separator.
pub starts_sep : Text → Bool
starts_sep [] = false
starts_sep (a ∷ []) = false
starts_sep (a ∷ b ∷ []) = false
starts_sep (a ∷ b ∷ c ∷ cs) = a == 32 && (b == 45 && c == 32)

shift : Option ℕ → Bool → Option ℕ
shift (some n) here = some (suc n)
shift none here = if here then some 0 else none

-- `s.lastIndexOf(' - ')`, where `none` is -1.
pub last_index : Text → Option ℕ
unfolding starts_sep shift
last_index [] = none
last_index (c ∷ cs) = shift (last_index cs) (starts_sep (c ∷ cs))

-- `s.substring(0, n)`.
pub substring : ℕ → Text → Text
substring zero s = []
substring (suc n) [] = []
substring (suc n) (c ∷ cs) = c ∷ substring n cs

cut : Option ℕ → Text → Text
unfolding substring
cut none s = s
cut (some zero) s = s
cut (some (suc n)) s = substring (suc n) s

-- `strip`, on the title of the document.
pub strip : Text → Text
unfolding cut
strip title = cut (last_index title) title

-- The title over the life of a page: `strip` runs once at the start, if the app is installed, and on
-- every `turbo:render`; a visit that brings a head with a new title sets it before it renders.
pub data Event : Type 0 where
  render : Event
  set_title : Text → Event

pub on_event : Bool → Event → Text → Text
on_event standalone render title = if standalone then strip title else title
on_event standalone (set_title new) title = new

pub run : Bool → List Event → Text → Text
unfolding on_event
run standalone [] title = title
run standalone (e ∷ es) title = run standalone es (on_event standalone e title)

pub start : Bool → Text → Text
start standalone title = if standalone then strip title else title

-- The capturing `submit` listener of the document: whether it prevents the submission, given whether
-- there is a submitter and it lies in a `lexxy-editor`.
pub prevents_submit : Option Bool → Bool
prevents_submit none = false
prevents_submit (some in_editor) = in_editor

-- The stream action `redirect_to`, on the list of the visits started.
pub redirect_to : Text → List Text → List Text
redirect_to target visits = visits ++ target ∷ []

-- The service workers that the page registers, each with its scope.
pub registrations : Bool → List (Text × Text)
registrations supported = if supported then (codes "/service-worker", codes "/") ∷ [] else []
