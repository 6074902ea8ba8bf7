-- ===== src/Erasure/Closing.antt =====
-- When an account is closed, and what the organizations are then.
use moneygun.Base.{
  ℕ, ◌≡◌, refl, ◌∙◌, Bool, true, false, not, ◌||◌, ◌==◌, List, [], ◌∷◌, Option, none, some, Text,
  All, keep_if, arith, if◌then◌else◌,
}
use moneygun.Members.{Membership, Organization, Outcome, saved, refused, find_by_user}
use moneygun.Members.Owner.{has_admin, IsLed, Saves}
use moneygun.Members.Gains.{is_in}
use moneygun.Members.Leaving.{blocks, blocks-invitations, leave, leave-IsLed, leave_done}
use moneygun.Sessions.Owners.{has_session, has-delete_all}
use moneygun.MagicLinks.{Link}
use moneygun.SignIn.{User, World, update_user}
use moneygun.Erasure.{
  Place, Result, declined, done, owns, blocked, undeletable, redacted_in, and_then, leave_all,
  purge_from, purge_received, forget, without_user, cut_off, redacted_user, redact_with, redact,
  destroy, erase,
}

-- Whether a user is an active member anywhere.
abbrev pub in_any : ℕ → List Organization → Bool
in_any u [] = false
in_any u (org ∷ orgs) = is_in u org || in_any u orgs

-- All organizations that a run gives have an owner who is an active admin.
abbrev AllLed : Option (List Organization) → Type 0
AllLed none = Unit
AllLed (some orgs) = All IsLed orgs

-- The same of what `erase!` leaves, where it is done.
abbrev pub LedAfter : Result → Type 0
LedAfter (done p) = All IsLed p.orgs
LedAfter _ = Unit

module _ (redacted : ℕ → Bool) (same_email : Text → Text → Bool) where
  and_then-out :
      (u : ℕ) (r : Outcome) (o : Option (List Organization))
      → (new : Organization) × (r ≡ saved new) × (is_in u new ≡ false)
      → (news : List Organization) × (o ≡ some news) × (in_any u news ≡ false)
      → (all : List Organization) × (and_then r o ≡ some all) × (in_any u all ≡ false)
  unfolding and_then
  and_then-out u r o (new, h, i) (news, k, j) = (new ∷ news, rw (h, k) refl, rw (i, j) refl)

  -- A user whom nothing keeps leaves all organizations.
  leave_all-out :
      (now u : ℕ) (e : Text) (orgs : List Organization)
      → owns u orgs ≡ false
      → blocked u orgs ≡ false
      → (all : List Organization) × (leave_all redacted now u (purge_received same_email e orgs)
          ≡ some all)
        × (in_any u all ≡ false)
  unfolding leave_all purge_received purge_from owns blocked blocks
  leave_all-out now u e [] n b = ([], refl, refl)
  leave_all-out now u e (org ∷ orgs) n b =
      and_then-out u _ _
        (leave_done redacted now u (find_by_user u org.memberships) (purge_from same_email e org)
          refl (ground arith)
          (blocks-invitations (purge_from same_email e org).invitations org
              (find_by_user u org.memberships)
            ∙ ground arith))
        (leave_all-out now u e orgs (ground arith) (ground arith))

  and_then-led :
      (r : Outcome) (o : Option (List Organization))
      → Saves IsLed r
      → AllLed o
      → AllLed (and_then r o)
  unfolding and_then
  and_then-led (saved org) (some orgs) l m = (l, m)
  and_then-led (saved org) none l m = tt
  and_then-led (refused f) o l m = tt

  leave_all-led :
      (now u : ℕ) (orgs : List Organization)
      → All IsLed orgs
      → AllLed (leave_all redacted now u orgs)
  unfolding leave_all
  leave_all-led now u [] l = l
  leave_all-led now u (org ∷ orgs) l =
      and_then-led (leave redacted now u org) (leave_all redacted now u orgs)
        (leave-IsLed redacted now u org l.0) (leave_all-led now u orgs l.1)

  purge-IsLed :
      (e : Text) (orgs : List Organization)
      → All IsLed orgs
      → All IsLed (purge_received same_email e orgs)
  unfolding purge_received purge_from
  purge-IsLed e [] l = l
  purge-IsLed e (org ∷ orgs) l = (l.0, purge-IsLed e orgs l.1)

kept_admin :
    (u o : ℕ) (ms : List Membership)
    → (o == u) ≡ false
    → has_admin o ms ≡ true
    → has_admin o (without_user u ms) ≡ true
unfolding without_user
kept_admin u o [] n h = cc
kept_admin u o (m ∷ ms) n h = ground (arith, kept_admin u o ms n)

forget-IsLed :
    (u : ℕ) (orgs : List Organization)
    → owns u orgs ≡ false
    → All IsLed orgs
    → All IsLed (forget u orgs)
unfolding forget owns
forget-IsLed u [] n l = l
forget-IsLed u (org ∷ orgs) n l = (
  kept_admin u org.owner_id org.memberships (ground arith) l.0,
  forget-IsLed u orgs (ground arith) l.1,
)

guarded-led :
    (b : Bool) (r : Result) → (b ≡ false → LedAfter r) → LedAfter (if b then declined else r)
guarded-led true r h = tt
guarded-led false r h = h refl

either-led : (b : Bool) (r s : Result) → LedAfter r → LedAfter s → LedAfter (if b then r else s)
either-led true r s h k = h
either-led false r s h k = k

abbrev pub has_link : ℕ → List Link → Bool
has_link u [] = false
has_link u (l ∷ ls) = l.user_id == u || has_link u ls

no_link : (u : ℕ) (ls : List Link) → has_link u (keep_if (λ l. not (l.user_id == u)) ls) ≡ false
no_link u [] = refl
no_link u (l ∷ ls) = ground (arith, no_link u ls)

module _ (same_email : Text → Text → Bool) (address : ℕ → Text) (valid : Text → Bool) where
  -- An account that is not redacted yet, that neither owns an organization nor is the only admin of
  -- one, is redacted when its new address is valid: its user is no active member then and has neither
  -- a session nor a magic link.
  pub redact_done :
      (now : ℕ) (x : User) (p : Place)
      → x.redacted ≡ false
      → undeletable x.id p.orgs ≡ false
      → valid (address x.id) ≡ true
      → (after : Place) × (redact same_email address valid now x p ≡ done after)
        × (in_any x.id after.orgs ≡ false)
        × (has_session x.id after.world.sessions ≡ false)
        × (has_link x.id after.world.links ≡ false)
  unfolding redact redact_with undeletable cut_off
  redact_done now x p r d v =
      let left =
        leave_all-out (redacted_in p.world.users) same_email now x.id x.email p.orgs (ground arith)
          (ground arith) in
      (
        record {
          world = record (cut_off x.id p.world) {
            users = update_user x.id (redacted_user address) p.world.users;
          };
          orgs = left.0;
        },
        rw (r, d, left.1, v) refl,
        left.2,
        has-delete_all x.id p.world.sessions,
        no_link x.id p.world.links,
      )

  redact_with-led :
      (u : ℕ) (o : Option (List Organization)) (w : World)
      → AllLed o
      → LedAfter (redact_with same_email address valid u o w)
  unfolding redact_with
  redact_with-led u none w l = tt
  redact_with-led u (some orgs) w l = either-led (valid (address u)) _ _ l tt

  redact-led :
      (now : ℕ) (x : User) (p : Place)
      → All IsLed p.orgs
      → LedAfter (redact same_email address valid now x p)
  unfolding redact
  redact-led now x p l = either-led (x.redacted || undeletable x.id p.orgs) _ _ tt (
      redact_with-led x.id _ p.world (
        leave_all-led (redacted_in p.world.users) same_email now x.id _
          (purge-IsLed (redacted_in p.world.users) same_email x.email p.orgs l)))

  destroy-led :
      (x : User) (p : Place)
      → undeletable x.id p.orgs ≡ false
      → All IsLed p.orgs
      → LedAfter (destroy same_email address valid x p)
  unfolding destroy undeletable
  destroy-led x p d l =
      purge-IsLed (redacted_in p.world.users) same_email x.email _
        (forget-IsLed x.id p.orgs (ground arith) l)

  -- However an account is erased, redacted or destroyed, the owner of every organization is one of its
  -- active admins afterwards, where that was so before.
  pub erase-LedAfter :
      (now : ℕ) (retained : Bool) (x : User) (p : Place)
      → All IsLed p.orgs
      → LedAfter (erase same_email address valid now retained x p)
  unfolding erase
  erase-LedAfter now retained x p l =
      guarded-led (undeletable x.id p.orgs) _
        (λ d. either-led retained _ _ (redact-led now x p l) (destroy-led x p d l))
