-- ===== src/Joining.antt =====
-- app/models/membership_request.rb and app/models/access_request.rb: how users ask to join an
-- organization, and what becomes of it. A request is known by its user, since the pair of organization
-- and user is unique. The privacy setting of the organization is fixed.
pub mod Access
pub mod Returns
pub mod Blocked
mod Examples
use moneygun.Base.{
  ℕ, ◌≡◌, Bool, true, false, not, ◌==◌, List, [], ◌∷◌, ◌++◌, Option, none, some, Text, keep_if,
  if◌then◌else◌,
}
use moneygun.Members.{Organization, Outcome, saved, refused, find_by_user, approve}
use moneygun.Members.Actions.{Action, is_active, apply, after}

pub data Privacy : Type 0 where
  private restricted public : Privacy

pub data Status : Type 0 where
  pending approved rejected : Status

pub record Request : Type 0 where
  pub user_id : ℕ
  pub status : Status

pub record Place : Type 0 where
  pub privacy : Privacy
  pub org : Organization
  pub requests : List Request

-- `participant?`.
unfoldable pub participant : ℕ → Organization → Bool
unfolding is_active
participant u org = is_active (find_by_user u org.memberships)

pub find_request : ℕ → List Request → Option Request
find_request u [] = none
find_request u (r ∷ rs) = let rest = find_request u rs in if r.user_id == u then some r else rest

pub destroy_request : ℕ → List Request → List Request
destroy_request u rs = keep_if (λ r. not (r.user_id == u)) rs

-- `update!(status: :approved)`.
pub mark_approved : ℕ → List Request → List Request
mark_approved u [] = []
mark_approved u (r ∷ rs) =
    let rest = mark_approved u rs in
    if r.user_id == u then record r { status = approved } ∷ rs else r ∷ rest

pub ask_restricted : Option Request → ℕ → Place → Place × Bool
ask_restricted none u p =
    (record p { requests = p.requests ++ record { user_id = u; status = pending } ∷ [] }, true)
ask_restricted (some r) u p = (p, false)

pub withdraw_as : Status → ℕ → Place → Place
unfolding destroy_request
withdraw_as pending u p = record p { requests = destroy_request u p.requests }
withdraw_as _ u p = p

pub withdraw_found : Option Request → ℕ → Place → Place
unfolding withdraw_as
withdraw_found none u p = p
withdraw_found (some r) u p = withdraw_as r.status u p

-- The user takes a pending request back.
pub withdraw : ℕ → Place → Place
unfolding withdraw_found find_request
withdraw u p = withdraw_found (find_request u p.requests) u p

-- `reject!`, whatever the status is.
pub reject_request : ℕ → Place → Place
unfolding destroy_request
reject_request u p = record p { requests = destroy_request u p.requests }

pub approved_with : ℕ → Outcome → Place → Place
unfolding mark_approved
approved_with u (saved org) p = record p { org = org; requests = mark_approved u p.requests }
approved_with u (refused f) p = p

module _ (redacted : ℕ → Bool) where
  -- What `request_access` does; in a public organization the answer of `save` is not looked at.
  pub ask_by : Privacy → ℕ → Place → Place × Bool
  unfolding ask_restricted find_request after
  ask_by private u p = (p, false)
  ask_by restricted u p = ask_restricted (find_request u p.requests) u p
  ask_by public u p = (record p { org = after p.org (approve redacted u p.org) }, true)

  -- `MembershipRequest#save`.
  pub ask : ℕ → Place → Place × Bool
  unfolding participant ask_by
  ask u p = if participant u p.org then (p, false) else ask_by p.privacy u p

  approve_found : Option Request → ℕ → Place → Place
  unfolding approved_with
  approve_found none u p = p
  approve_found (some r) u p = approved_with u (approve redacted u p.org) p

  -- `approve!` of the request of a user, whatever its status is.
  pub approve_request : ℕ → Place → Place
  unfolding approve_found find_request
  approve_request u p = approve_found (find_request u p.requests) u p

pub data Event : Type 0 where
  asks approves_request rejects_request withdraws : ℕ → Event
  acts : Action → Event

module _ (redacted : ℕ → Bool) (same_email : Text → Text → Bool) where
  pub step : Event → Place → Place
  unfolding ask approve_request reject_request withdraw apply after
  step (asks u) p = (ask redacted u p).0
  step (approves_request u) p = approve_request redacted u p
  step (rejects_request u) p = reject_request u p
  step (withdraws u) p = withdraw u p
  step (acts a) p = record p { org = after p.org (apply redacted same_email a p.org) }

  pub run : List Event → Place → Place
  unfolding step
  run [] p = p
  run (e ∷ es) p = run es (step e p)
