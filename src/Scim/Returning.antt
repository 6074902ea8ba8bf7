-- ===== src/Scim/Returning.antt =====
-- A deactivated member whom an identity provider creates.
use moneygun.Base.{ℕ, ◌≡◌, refl, sym, Bool, true, false, [], some, Text, arith}
use mathlib.Core.Path.{subst}
use moneygun.Members.{Role, Membership, Organization, active, find_by_user, errors, update}
use moneygun.Members.Actions.{is_active}
use moneygun.Members.Gains.{is_in}
use moneygun.Members.Returns.{replaced_self}
use moneygun.Erasure.{redacted_in}
use moneygun.Sso.Resolution.{Place}
use moneygun.Scim.{
  Resource, done, member_with, is_some, returned, bring_back, saved_as, upsert, requires_consent,
  create,
}
use moneygun.Scim.Leading.{member_with-found}

no_errors :
    (redacted : ℕ → Bool) (org : Organization) (m : Membership)
    → active m.deactivated_at ≡ false
    → redacted m.user_id ≡ false
    → errors redacted org m (returned m) ≡ []
unfolding errors active
no_errors redacted org m a r = ground arith

asks_nothing :
    (r : Resource) (p : Place) (m : Membership)
    → member_with r.user_name p.users p.org.memberships ≡ some m
    → requires_consent r p ≡ false
unfolding requires_consent is_some
asks_nothing r p m h = ground arith

module _ (acceptable : Text → Bool) (valid : Text → Bool) where
  brought_back :
      (m : Membership) (p : Place)
      → find_by_user m.user_id p.org.memberships ≡ some m
      → active m.deactivated_at ≡ false
      → redacted_in p.users m.user_id ≡ false
      → ((bring_back m p).1 ≡ done (returned m)) × (is_in m.user_id (bring_back m p).0.org ≡ true)
  unfolding bring_back saved_as update is_active active
  brought_back m p f a r = (
    rw (no_errors (redacted_in p.users) p.org m a r) refl,
    rw
        (
          no_errors (redacted_in p.users) p.org m a r,
          replaced_self (redacted_in p.users) m.user_id (returned m) m p.org.memberships refl f,
        )
        refl,
  )

  create-bring_back :
      (now : ℕ) (role : Role) (i k : ℕ) (r : Resource) (p : Place) (m : Membership)
      → member_with r.user_name p.users p.org.memberships ≡ some m
      → active m.deactivated_at ≡ false
      → create acceptable valid now role i k r p ≡ bring_back m p
  unfolding create upsert
  create-bring_back now role i k r p m h a = rw (asks_nothing r p m h, h, a) refl

  -- A deactivated membership is brought back by a request to create its user, whatever the request
  -- says of the user being active, so also where it says that the user is not, as long as the user is
  -- not redacted.
  pub create_returns :
      (now : ℕ) (role : Role) (i k : ℕ) (r : Resource) (p : Place) (m : Membership)
      → member_with r.user_name p.users p.org.memberships ≡ some m
      → active m.deactivated_at ≡ false
      → redacted_in p.users m.user_id ≡ false
      → ((create acceptable valid now role i k r p).1 ≡ done (returned m))
        × (is_in m.user_id (create acceptable valid now role i k r p).0.org ≡ true)
  create_returns now role i k r p m h a d =
      subst (λ q. (q.1 ≡ done (returned m)) × (is_in m.user_id q.0.org ≡ true))
        (sym (create-bring_back now role i k r p m h a))
        (brought_back m p (member_with-found r.user_name p.users p.org.memberships m h) a d)
