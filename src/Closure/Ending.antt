-- ===== src/Closure/Ending.antt =====
-- What the end of an organization leaves to its owner.
use moneygun.Base.{
  ℕ, ◌+◌, ◌<◌, ◌≡◌, Bool, true, false, ◌&&◌, ◌||◌, ◌==◌, ==_iff, List, [], ◌∷◌, Option, none, some,
  All, arith,
}
use moneygun.Erasure.{undeletable, owns}
use moneygun.Closure.{
  Tenant, active_subscription, deleted, erase, update, find_kept, destroy_found, destroy, due, past,
  skip, purge, purges, orgs_of,
}

abbrev pub deleted_is : ℕ → Option ℕ → Bool
deleted_is now none = false
deleted_is now (some t) = t == now

-- An organization of the user that was deleted at a time.
abbrev pub has_deleted : ℕ → ℕ → List Tenant → Bool
has_deleted now u [] = false
has_deleted now u (t ∷ ts) =
    (t.org.owner_id == u && deleted_is now t.deleted_at) || has_deleted now u ts

still_owned :
    (now u : ℕ) (ts : List Tenant) → has_deleted now u ts ≡ true → owns u (orgs_of ts) ≡ true
unfolding owns orgs_of
still_owned now u [] h = cc
still_owned now u (t ∷ ts) h = ground (arith, still_owned now u ts)

ended :
    (now u k : ℕ) (t : Tenant) (ts : List Tenant)
    → find_kept u k ts ≡ some t
    → (t.org.owner_id == u) ≡ true
    → deleted t ≡ false
    → active_subscription t ≡ false
    → has_deleted now u (update (erase now t).0 ts) ≡ true
unfolding find_kept update erase
ended now u k t [] f o d a = cc
ended now u k t (s ∷ ss) f o d a = ground (arith, ended now u k t ss)

kept_found :
    (u k : ℕ) (t : Tenant) (ts : List Tenant) → find_kept u k ts ≡ some t → deleted t ≡ false
unfolding find_kept
kept_found u k t [] f = cc
kept_found u k t (s ∷ ss) f = ground (arith, kept_found u k t ss)

module _ (window : ℕ) where
  not_due :
      (now later : ℕ) (o : Option ℕ)
      → later < now + window
      → deleted_is now o ≡ true
      → past window later o ≡ false
  unfolding past
  not_due now later none l h = cc
  not_due now later (some d) l h = ground (arith, l, ==_iff d now)

  purge-has_deleted :
      (now later u : ℕ) (ts : List Tenant)
      → later < now + window
      → has_deleted now u ts ≡ true
      → has_deleted now u (purge window later ts).0 ≡ true
  unfolding purge due skip
  purge-has_deleted now later u [] l h = cc
  purge-has_deleted now later u (t ∷ ts) l h =
      ground (arith, purge-has_deleted now later u ts l, not_due now later t.deleted_at l)

  purges-has_deleted :
      (now u : ℕ) (times : List ℕ) (ts : List Tenant)
      → All (λ later. later < now + window) times
      → has_deleted now u ts ≡ true
      → has_deleted now u (purges window times ts) ≡ true
  unfolding purges
  purges-has_deleted now u [] ts l h = h
  purges-has_deleted now u (later ∷ times) ts l h =
      purges-has_deleted now u times (purge window later ts).0 l.1
        (purge-has_deleted now later u ts l.0 h)

  -- The owner of an organization without an active subscription who deletes it cannot close the account
  -- before the recovery window is over, whatever is purged until then: the deleted organization counts
  -- as one that the user owns.
  pub deleted_owner_blocked :
      (now u k : ℕ) (times : List ℕ) (t : Tenant) (ts : List Tenant)
      → find_kept u k ts ≡ some t
      → (t.org.owner_id == u) ≡ true
      → active_subscription t ≡ false
      → All (λ later. later < now + window) times
      → undeletable u (orgs_of (purges window times (destroy now u k ts))) ≡ true
  unfolding undeletable destroy destroy_found
  deleted_owner_blocked now u k times t ts f o a l =
      let h = ended now u k t ts f o (kept_found u k t ts f) a in
      let d : has_deleted now u (destroy now u k ts) ≡ true = rw (f, o) h in
      ground (arith, still_owned now u _ (purges-has_deleted now u times (destroy now u k ts) l d))
