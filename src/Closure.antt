-- ===== src/Closure.antt =====
-- The end of an organization: `erase!` of app/models/organization.rb, with `active_subscription?` of
-- app/models/concerns/organization/billing.rb, the action destroy of
-- app/controllers/organizations_controller.rb, and the first step of app/jobs/organization/purge_job.rb.
-- Projects, exports, notifications, the customer at the payment service, and logs are left out. Times
-- are seconds.
pub mod Ending
pub mod Purging
mod Examples
use moneygun.Base.{
  ℕ, ◌+◌, ◌≡◌, Bool, true, false, not, ◌&&◌, ◌||◌, ◌==◌, List, [], ◌∷◌, Option, none, some, leb,
  if◌then◌else◌,
}
use moneygun.Members.{Organization, find_by_user}
use moneygun.Members.Actions.{is_active}

-- When a subscription ends, where that is known.
pub record Subscription : Type 0 where
  pub ends_at : Option ℕ

-- An organization with what else goes when it ends; without a customer at the payment service there is no
-- subscription.
pub record Tenant : Type 0 where
  pub id : ℕ
  pub org : Organization
  pub deleted_at : Option ℕ
  pub subscription : Option Subscription
  pub sso_connection : Bool
  pub scim_connection : Bool

is_none : Option ℕ → Bool
is_none none = true
is_none (some t) = false

endless : Option Subscription → Bool
unfolding is_none
endless none = false
endless (some s) = is_none s.ends_at

-- `active_subscription?`.
pub active_subscription : Tenant → Bool
unfolding endless
active_subscription t = endless t.subscription

-- `deleted?`.
pub deleted : Tenant → Bool
unfolding is_none
deleted t = not (is_none t.deleted_at)

-- `erase!`, and whether it is done.
pub erase : ℕ → Tenant → Tenant × Bool
unfolding deleted active_subscription
erase now t = if deleted t || active_subscription t then (t, false) else (
  record t {
    org = record t.org { invitations = [] };
    deleted_at = some now;
    sso_connection = false;
    scim_connection = false;
  },
  true,
)

-- The row of an organization gets its new values.
pub update : Tenant → List Tenant → List Tenant
update t [] = []
update t (s ∷ ss) = let rest = update t ss in if s.id == t.id then t ∷ ss else s ∷ rest

-- `organizations.find` of a user who is an active member.
pub find_kept : ℕ → ℕ → List Tenant → Option Tenant
unfolding deleted find_by_user is_active
find_kept u k [] = none
find_kept u k (t ∷ ts) =
    let rest = find_kept u k ts in
    if (t.id == k) && (not (deleted t) && is_active (find_by_user u t.org.memberships))
    then some t
    else rest

destroy_found : ℕ → ℕ → Option Tenant → List Tenant → List Tenant
unfolding erase update
destroy_found now u none ts = ts
destroy_found now u (some t) ts = if t.org.owner_id == u then update (erase now t).0 ts else ts

-- `OrganizationsController#destroy`, for a user with sudo; the policy asks for the owner.
pub destroy : ℕ → ℕ → ℕ → List Tenant → List Tenant
unfolding destroy_found find_kept
destroy now u k ts = destroy_found now u (find_kept u k ts) ts

-- Which organizations a job purges: those that were deleted before the recovery window.
module _ (window : ℕ) where
  past : ℕ → Option ℕ → Bool
  past now none = false
  past now (some d) = leb (d + window) now

  pub due : ℕ → Tenant → Bool
  unfolding past
  due now t = past now t.deleted_at

  skip : Tenant → List Tenant × Bool → List Tenant × Bool
  skip t (ts, done) = (t ∷ ts, done)

  -- `purge_organizations`, and whether it comes to its end: `destroy!` raises for an organization with
  -- an active subscription.
  pub purge : ℕ → List Tenant → List Tenant × Bool
  unfolding due skip active_subscription
  purge now [] = ([], true)
  purge now (t ∷ ts) =
      let rest = purge now ts in
      if due now t then (if active_subscription t then (t ∷ ts, false) else rest) else skip t rest

  pub purges : List ℕ → List Tenant → List Tenant
  unfolding purge
  purges [] ts = ts
  purges (now ∷ later) ts = purges later (purge now ts).0

pub orgs_of : List Tenant → List Organization
orgs_of [] = []
orgs_of (t ∷ ts) = t.org ∷ orgs_of ts
