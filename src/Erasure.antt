-- ===== src/Erasure.antt =====
-- app/models/concerns/user/redaction.rb, with `undeletable_reasons` of app/models/user.rb: how an account
-- is closed. Organizations, users, magic links and sessions are changed in one transaction. Whether a
-- user has left traces that are retained, and which addresses are valid, are parameters; the
-- notifications and the data for marketing are left out.
pub mod Closing
pub mod Afterwards
mod Examples
use moneygun.Base.{
  ℕ, ◌≡◌, Bool, true, false, not, ◌&&◌, ◌||◌, ◌==◌, List, [], ◌∷◌, Option, none, some, Text,
  keep_if, if◌then◌else◌,
}
use moneygun.Members.{Membership, Invitation, Organization, Outcome, saved, refused, find_by_user}
use moneygun.Members.Leaving.{blocks, leave}
use moneygun.MagicLinks.{Link}
use moneygun.Sessions.{delete_all_of}
use moneygun.TwoFactor.{two_factor_enabled, disable_two_factor}
use moneygun.SignIn.{User, World, find_user, update_user}

pub record Place : Type 0 where
  pub world : World
  pub orgs : List Organization

-- What `erase!` does: it returns false, it raises and leaves all as it was, or it is done.
pub data Result : Type 0 where
  declined failed : Result
  done : Place → Result

-- `owned_organizations.exists?`.
unfoldable pub owns : ℕ → List Organization → Bool
owns u [] = false
owns u (org ∷ orgs) = org.owner_id == u || owns u orgs

-- `organizations_blocking_closure.any?`.
blocked : ℕ → List Organization → Bool
unfolding blocks
blocked u [] = false
blocked u (org ∷ orgs) = blocks org (find_by_user u org.memberships) || blocked u orgs

-- `undeletable_reasons.any?`.
unfoldable pub undeletable : ℕ → List Organization → Bool
unfolding owns blocked
undeletable u orgs = owns u orgs || blocked u orgs

unfoldable pub redacted_in : List User → ℕ → Bool
redacted_in [] u = false
redacted_in (v ∷ vs) u = if v.id == u then v.redacted else redacted_in vs u

and_then : Outcome → Option (List Organization) → Option (List Organization)
and_then (saved org) (some orgs) = some (org ∷ orgs)
and_then _ _ = none

-- Leaving one organization after the other; one that refuses raises.
pub leave_all : (ℕ → Bool) → ℕ → ℕ → List Organization → Option (List Organization)
unfolding and_then leave
leave_all redacted now u [] = some []
leave_all redacted now u (org ∷ orgs) =
    and_then (leave redacted now u org) (leave_all redacted now u orgs)

-- `purge_received_invitations`, from one organization.
purge_from : (Text → Text → Bool) → Text → Organization → Organization
purge_from same_email e org = record org {
  invitations = keep_if (λ i. not (same_email i.email e)) org.invitations;
}

pub purge_received : (Text → Text → Bool) → Text → List Organization → List Organization
unfolding purge_from
purge_received same_email e [] = []
purge_received same_email e (org ∷ orgs) =
    purge_from same_email e org ∷ purge_received same_email e orgs

-- `update!`, after `disable_two_factor!`.
pub redacted_user : (ℕ → Text) → User → User
unfolding disable_two_factor
redacted_user address v = record v {
  email = address v.id;
  redacted = true;
  factor = if two_factor_enabled v.factor then disable_two_factor v.factor else v.factor;
}

-- `memberships.destroy` of a user whose row goes, in one organization.
without_user : ℕ → List Membership → List Membership
without_user u ms = keep_if (λ m. not (m.user_id == u)) ms

pub forget : ℕ → List Organization → List Organization
unfolding without_user
forget u [] = []
forget u (org ∷ orgs) = record org { memberships = without_user u org.memberships } ∷ forget u orgs

-- What goes with the user: sessions and magic links.
pub cut_off : ℕ → World → World
cut_off u w = record w {
  sessions = delete_all_of u w.sessions;
  links = keep_if (λ l. not (l.user_id == u)) w.links;
}

-- How Ruby compares two addresses, the address that stands for a redacted user, and which are valid.
module _ (same_email : Text → Text → Bool) (address : ℕ → Text) (valid : Text → Bool) where
  redact_with : ℕ → Option (List Organization) → World → Result
  unfolding cut_off update_user redacted_user
  redact_with u none w = failed
  redact_with u (some orgs) w =
      if valid (address u)
      then done (record {
        world = record (cut_off u w) { users = update_user u (redacted_user address) w.users };
        orgs = orgs;
      })
      else failed

  -- `redact!`.
  pub redact : ℕ → User → Place → Result
  unfolding redact_with leave_all purge_received undeletable redacted_in
  redact now x p =
      if x.redacted || undeletable x.id p.orgs
      then declined
      else redact_with x.id
          (leave_all (redacted_in p.world.users) now x.id
            (purge_received same_email x.email p.orgs))
          p.world

  -- `destroy` of a user who leaves no traces.
  pub destroy : User → Place → Result
  unfolding cut_off forget purge_received
  destroy x p = done (record {
    world = record (cut_off x.id p.world) {
      users = keep_if (λ v. not (v.id == x.id)) p.world.users;
    };
    orgs = purge_received same_email x.email (forget x.id p.orgs);
  })

  -- `erase!`; `retained` is `retained_footprint?`.
  pub erase : ℕ → Bool → User → Place → Result
  unfolding redact destroy undeletable
  erase now retained x p =
      if undeletable x.id p.orgs then declined else if retained then redact now x p else destroy x p
