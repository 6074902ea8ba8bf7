-- ===== src/Closure/Examples.antt =====
-- Three organizations of one owner: one that is kept, one whose subscription came back after it was
-- deleted, and one that was deleted long ago.
use moneygun.Base.{ℕ, ◌≡◌, refl, true, false, [], ◌∷◌, ◌++◌, List, Option, none, some, arith, ◌↔◌}
use mathlib.Core.List.{Mem}
use moneygun.Members.{Organization, admin, manual}
use moneygun.Erasure.{undeletable}
use moneygun.Closure.{Tenant, active_subscription, due, find_kept, destroy, purge, purges, orgs_of}
use moneygun.Closure.Ending.{deleted_owner_blocked}
use moneygun.Closure.Purging.{IsOverdue, kept, purge_exact, purge_stuck}

abbrev shop : Organization
shop = record {
  owner_id = 1;
  memberships =
      record { user_id = 1; role = admin; deactivated_at = none; provisioned_via = manual } ∷ [];
  invitations = [];
}

abbrev tenant : ℕ → Option ℕ → Tenant
tenant k d = record {
  id = k;
  org = shop;
  deleted_at = d;
  subscription = none;
  sso_connection = true;
  scim_connection = false;
}

abbrev paying : Tenant
paying = record (tenant 2 (some 5)) { subscription = some (record { ends_at = none }) }

abbrev tenants : List Tenant
tenants = tenant 1 none ∷ paying ∷ tenant 3 (some 6) ∷ []

deleted_owner_blocked_example :
    undeletable 1 (orgs_of (purges 100 (250 ∷ 299 ∷ []) (destroy 200 1 1 tenants))) ≡ true
unfolding find_kept active_subscription
deleted_owner_blocked_example =
    deleted_owner_blocked 100 200 1 1 (250 ∷ 299 ∷ []) (tenant 1 none) tenants refl refl refl
      (omega arith, (omega arith, tt))

abbrev ended : Tenant
ended = record (tenant 4 (some 7)) { subscription = some (record { ends_at = some 50 }) }

abbrev lapsed : List Tenant
lapsed = tenant 1 none ∷ record paying { deleted_at = some 250 } ∷ ended ∷ []

purge_exact_example :
    ((purge 100 300 lapsed).1 ≡ true)
    × ((t : Tenant) → Mem t (purge 100 300 lapsed).0 ↔ (Mem t lapsed × (¬ IsOverdue 100 300 t)))
purge_exact_example = purge_exact 100 300 lapsed (
  (λ (d, e, l) s. cc e),
  ((λ (d, e, l) s. ground (arith, e, l)), ((λ o (s, e, n). ground (arith, e, n)), tt)),
)

purge_stuck_example :
    (purge 100 300 (tenant 1 none ∷ paying ∷ tenant 3 (some 6) ∷ [])).0
    ≡ kept 100 300 (tenant 1 none ∷ []) ++ paying ∷ tenant 3 (some 6) ∷ []
unfolding due active_subscription
purge_stuck_example =
    purge_stuck 100 300 paying (tenant 1 none ∷ []) (tenant 3 (some 6) ∷ []) refl refl refl
