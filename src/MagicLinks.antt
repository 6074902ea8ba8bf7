-- ===== src/MagicLinks.antt =====
-- app/models/magic_link.rb and app/models/magic_link/code.rb, with `send_magic_link` of
-- app/models/concerns/user/authentication.rb: codes by mail that prove an address. The table of links
-- is a list in no particular order; its unique index on the code makes the code the name of a link.
-- Times are seconds.
pub mod Once
pub mod Slots
pub mod Codes
pub mod Granted
mod Examples
use moneygun.Base.{
  ℕ, zero, suc, ◌+◌, ◌≡◌, Bool, true, false, not, ◌&&◌, ◌||◌, ◌==◌, List, [], ◌∷◌, Option, none,
  some, Text, text_eq, leb, keep_if, if◌then◌else◌,
}

pub data Purpose : Type 0 where
  sign_in sign_up email_change sudo : Purpose

pub record Link : Type 0 where
  pub user_id : ℕ
  pub purpose : Purpose
  pub code : Text
  pub new_email : Option Text
  pub expires_at : ℕ

unfoldable pub same_purpose : Purpose → Purpose → Bool
same_purpose sign_in sign_in = true
same_purpose sign_up sign_up = true
same_purpose email_change email_change = true
same_purpose sudo sudo = true
same_purpose _ _ = false

pub one_of : Purpose → List Purpose → Bool
unfolding same_purpose
one_of p [] = false
one_of p (q ∷ qs) = same_purpose p q || one_of p qs

-- `purposes_sharing_slot_with`.
pub slot : Purpose → List Purpose
slot sign_in = sign_in ∷ sign_up ∷ []
slot sign_up = sign_in ∷ sign_up ∷ []
slot email_change = email_change ∷ []
slot sudo = sudo ∷ []

abbrev pub is_digit : ℕ → Bool
is_digit c = leb 48 c && leb c 57

-- Ruby's `[[:space:]]`.
is_space : ℕ → Bool
is_space c =
    (leb 9 c && leb c 13)
    || (c == 32)
    || (c == 133)
    || (c == 160)
    || (c == 0x1680)
    || (leb 0x2000 c && leb c 0x200a)
    || (c == 0x2028)
    || (c == 0x2029)
    || (c == 0x202f)
    || (c == 0x205f)
    || (c == 0x3000)

pub blank : Text → Bool
blank [] = true
blank (c ∷ cs) = is_space c && blank cs

-- `Code.sanitize`.
pub sanitize : Text → Option Text
unfolding blank is_space
sanitize s = if blank s then none else some (keep_if is_digit s)

-- `Code.generate`, from a source of random numbers below 10; `n` is the number of the first.
pub generate : (ℕ → ℕ) → ℕ → ℕ → Text
generate random n zero = []
generate random n (suc length) = (48 + random n) ∷ generate random (suc n) length

pub code_exists : Text → List Link → Bool
code_exists c [] = false
code_exists c (l ∷ ls) = text_eq l.code c || code_exists c ls

-- `generate_code`: the loop, on fuel. A round draws six numbers.
pub generate_code : ℕ → (ℕ → ℕ) → ℕ → List Link → Option Text
unfolding code_exists generate
generate_code zero random n links = none
generate_code (suc fuel) random n links =
    let candidate = generate random n 6 in
    let rest = generate_code fuel random (n + 6) links in
    if code_exists candidate links then rest else some candidate

-- What an attempt to use a code asks for: `owns` is the association or the scope `for_email` through
-- which `consume` is called.
pub record Attempt : Type 0 where
  pub now : ℕ
  pub owns : ℕ → Bool
  pub code : Text
  pub purposes : Option (List Purpose)
  pub new_email : Option Text

in_purposes : Option (List Purpose) → Purpose → Bool
unfolding one_of
in_purposes none p = true
in_purposes (some ps) p = one_of p ps

has_new_email : Option Text → Option Text → Bool
has_new_email none e = true
has_new_email (some []) e = true
has_new_email (some (c ∷ cs)) none = false
has_new_email (some (c ∷ cs)) (some e) = text_eq e (c ∷ cs)

is_code : Option Text → Text → Bool
is_code none c = false
is_code (some d) c = text_eq c d

-- The conditions of the scope of `consume`, with the scope `active`.
unfoldable pub matches : Attempt → Link → Bool
unfolding in_purposes has_new_email is_code sanitize
matches a l =
    is_code (sanitize a.code) l.code
    && (leb a.now l.expires_at
        && (a.owns l.user_id
            && (in_purposes a.purposes l.purpose && has_new_email a.new_email l.new_email)))

pub find_link : Attempt → List Link → Option Link
find_link a [] = none
find_link a (l ∷ ls) = let rest = find_link a ls in if matches a l then some l else rest

-- `destroy!`.
pub destroy : Text → List Link → List Link
destroy c ls = keep_if (λ l. not (text_eq l.code c)) ls

consume_found : Option Link → List Link → List Link × Option Link
unfolding destroy
consume_found none ls = (ls, none)
consume_found (some l) ls = (destroy l.code ls, some l)

unfoldable pub consume : Attempt → List Link → List Link × Option Link
unfolding consume_found find_link
consume a ls = consume_found (find_link a ls) ls

-- `cleanup`, with the scope `stale`.
pub cleanup : ℕ → List Link → List Link
cleanup now ls = keep_if (λ l. not (leb l.expires_at now)) ls

-- A link of the user in the slot of a purpose.
pub in_slot : ℕ → Purpose → Link → Bool
unfolding one_of slot
in_slot u p l = l.user_id == u && one_of l.purpose (slot p)

-- `send_magic_link`, for a code that `generate_code` gave.
unfoldable pub send_magic_link : ℕ → ℕ → Purpose → Option Text → Text → List Link → List Link
unfolding in_slot
send_magic_link now u p new_email code ls =
    record { user_id = u; purpose = p; code = code; new_email = new_email; expires_at = now + 900 }
    ∷ keep_if (λ l. not (in_slot u p l)) ls

pub data Event : Type 0 where
  sent : ℕ → ℕ → Purpose → Option Text → Text → Event
  attempted : Attempt → Event
  cleaned : ℕ → Event

pub step : Event → List Link → List Link
unfolding send_magic_link consume cleanup
step (sent now u p e c) ls = send_magic_link now u p e c ls
step (attempted a) ls = (consume a ls).0
step (cleaned now) ls = cleanup now ls

pub run : List Event → List Link → List Link
unfolding step
run [] ls = ls
run (e ∷ es) ls = run es (step e ls)
