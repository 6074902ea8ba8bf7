-- ===== src/Sso.antt =====
-- app/models/sso_domain.rb and, of app/models/sso_connection.rb, for which addresses an identity
-- provider may speak; the child Resolution says whom a sign-in through it lets in. `strip.downcase` is Ruby's, and the domain name
-- system says whether a domain publishes the token of a row: parameters.
pub mod Domains
pub mod Resolution
pub mod Granting
mod Examples
use moneygun.Base.{
  ℕ, ◌≡◌, Bool, true, false, not, ◌&&◌, ◌||◌, ◌==◌, List, [], ◌∷◌, ◌++◌, Option, none, some, Text,
  text_eq, keep_if, if◌then◌else◌,
}

pub record Domain : Type 0 where
  pub id : ℕ
  pub connection_id : ℕ
  pub domain : Text
  pub verified_at : Option ℕ

pub is_verified : Option ℕ → Bool
is_verified none = false
is_verified (some t) = true

end_at : ℕ → Text → Text
end_at c [] = if c == 64 then [] else c ∷ []
end_at c (d ∷ ds) = c ∷ d ∷ ds

-- `split("@")` drops what is empty at the end.
drop_ats : Text → Text
unfolding end_at
drop_ats [] = []
drop_ats (c ∷ cs) = end_at c (drop_ats cs)

or_after : Option Text → ℕ → Text → Option Text
or_after (some s) c cs = some s
or_after none c cs = if c == 64 then some cs else none

after_last_at : Text → Option Text
unfolding or_after
after_last_at [] = none
after_last_at (c ∷ cs) = or_after (after_last_at cs) c cs

or_whole : Option Text → Text → Text
or_whole none s = s
or_whole (some t) s = t

presence : Text → Option Text
presence [] = none
presence (c ∷ cs) = some (c ∷ cs)

cleaned : (Text → Text) → Text → Option Text
unfolding presence
cleaned clean [] = none
cleaned clean (c ∷ cs) = presence (clean (c ∷ cs))

-- `domain_for`.
pub domain_for : (Text → Text) → Text → Option Text
unfolding drop_ats after_last_at or_whole cleaned
domain_for clean email =
    let parts = drop_ats email in cleaned clean (or_whole (after_last_at parts) parts)

pub verified_for : ℕ → Text → List Domain → Bool
unfolding is_verified
verified_for c x [] = false
verified_for c x (d ∷ ds) =
    (d.connection_id == c && (is_verified d.verified_at && text_eq d.domain x))
    || verified_for c x ds

asserts_domain : ℕ → Option Text → List Domain → Bool
unfolding verified_for
asserts_domain c none ds = false
asserts_domain c (some x) ds = verified_for c x ds

-- `asserts_email?` of a connection.
pub asserts_email : (Text → Text) → ℕ → Text → List Domain → Bool
unfolding asserts_domain domain_for
asserts_email clean c email ds = asserts_domain c (domain_for clean email) ds

pub find_domain : ℕ → List Domain → Option Domain
find_domain i [] = none
find_domain i (d ∷ ds) = let rest = find_domain i ds in if d.id == i then some d else rest

-- The uniqueness of a domain within a connection, for the row `i`.
pub taken : ℕ → ℕ → Text → List Domain → Bool
taken i c x [] = false
taken i c x (d ∷ ds) =
    (not (d.id == i) && (d.connection_id == c && text_eq d.domain x)) || taken i c x ds

-- `verified_domain_is_not_claimed_elsewhere`, for the row `i`.
pub claimed_elsewhere : ℕ → Text → List Domain → Bool
unfolding is_verified
claimed_elsewhere i x [] = false
claimed_elsewhere i x (d ∷ ds) =
    (not (d.id == i) && (is_verified d.verified_at && text_eq d.domain x))
    || claimed_elsewhere i x ds

pub set_verified : ℕ → ℕ → List Domain → List Domain
set_verified now i [] = []
set_verified now i (d ∷ ds) =
    let rest = set_verified now i ds in
    if d.id == i then record d { verified_at = some now } ∷ ds else d ∷ rest

verify_found : ℕ → Bool → Option Domain → List Domain → List Domain × Bool
unfolding is_verified taken claimed_elsewhere set_verified
verify_found now published none ds = (ds, false)
verify_found now published (some d) ds =
    if is_verified d.verified_at
    then (ds, true)
    else if published
        && not (taken d.id d.connection_id d.domain ds || claimed_elsewhere d.id d.domain ds)
    then (set_verified now d.id ds, true)
    else (ds, false)

-- `verify!`.
pub verify : ℕ → Bool → ℕ → List Domain → List Domain × Bool
unfolding verify_found find_domain
verify now published i ds = verify_found now published (find_domain i ds) ds

id_taken : ℕ → List Domain → Bool
id_taken i [] = false
id_taken i (d ∷ ds) = d.id == i || id_taken i ds

-- A new row, not verified; `valid` says whether the domain has the format. The key is a new one.
pub add : Bool → ℕ → ℕ → Text → List Domain → List Domain
unfolding taken id_taken
add valid i c x ds =
    if valid && not (taken i c x ds || id_taken i ds)
    then ds ++ record { id = i; connection_id = c; domain = x; verified_at = none } ∷ []
    else ds

pub data Event : Type 0 where
  adds : Bool → ℕ → ℕ → Text → Event
  verifies : ℕ → Bool → ℕ → Event
  removes : ℕ → Event

pub step : Event → List Domain → List Domain
unfolding add verify
step (adds valid i c x) ds = add valid i c x ds
step (verifies now published i) ds = (verify now published i ds).0
step (removes i) ds = keep_if (λ d. not (d.id == i)) ds

pub run : List Event → List Domain → List Domain
unfolding step
run [] ds = ds
run (e ∷ es) ds = run es (step e ds)
