-- ===== src/Members/Limits/Hourly.antt =====
-- The invitations of the last hour that are there.
use moneygun.Base.{
  ℕ, suc, ◌+◌, ◌≤◌, ◌≡◌, Bool, not, ◌==◌, List, [], ◌∷◌, ◌++◌, Option, none, some, Text, keep_if,
  arith,
}
use moneygun.Members.{Role, Invitation, Organization, saved}
use moneygun.Members.Actions.{find_invitation, remove_invitation, with_invitation, revoke, after}
use moneygun.Members.Inviting.{purge, expired_for, invite}
use moneygun.Members.Limits.{
  Desk, recent, recent_at, stamped, after_save, Event, creates, revokes, create, destroy, step, run,
}

recent-later :
    (now later : ℕ) (created_at : ℕ → ℕ) (is : List Invitation)
    → now ≤ later
    → recent later created_at is ≤ recent now created_at is
unfolding recent
recent-later now later created_at [] l = ground arith
recent-later now later created_at (i ∷ is) l =
    ground (arith, l, recent-later now later created_at is l)

recent-keep_if :
    (now : ℕ) (created_at : ℕ → ℕ) (q : Invitation → Bool) (is : List Invitation)
    → recent now created_at (keep_if q is) ≤ recent now created_at is
unfolding recent
recent-keep_if now created_at q [] = ground arith
recent-keep_if now created_at q (i ∷ is) = ground (arith, recent-keep_if now created_at q is)

recent-added :
    (now k : ℕ) (created_at : ℕ → ℕ) (q : Invitation → Bool) (new : Invitation)
    (is : List Invitation)
    → find_invitation k is ≡ none
    → recent now (stamped now k created_at) (keep_if q is ++ new ∷ [])
      ≤ suc (recent now created_at is)
unfolding recent find_invitation
recent-added now k created_at q new [] f = ground arith
recent-added now k created_at q new (i ∷ is) f =
    ground (arith, recent-added now k created_at q new is)

abbrev time : Event → ℕ
time (creates now k e role) = now
time (revokes now k) = now

-- The key of a new invitation is not in use.
abbrev IsFresh : Event → Desk → Type 0
IsFresh (creates now k e role) d = find_invitation k d.org.invitations ≡ none
IsFresh (revokes now k) d = Unit

abbrev pub last_time : ℕ → List Event → ℕ
last_time t [] = t
last_time t (e ∷ es) = last_time (time e) es

module _ (email_of : ℕ → Text) (valid : Text → Bool) where
  create-recent :
      (now k : ℕ) (e : Text) (role : Role) (d : Desk)
      → find_invitation k d.org.invitations ≡ none
      → recent_at now d ≤ 30
      → recent_at now (create email_of valid now k e role d) ≤ 30
  unfolding create after_save invite purge
  create-recent now k e role d f l =
      let new : Invitation = record {
        id = k;
        email = e;
        role = role;
        expires_at = now + 1_209_600;
      } in
      ground (
        arith,
        recent-added now k d.created_at (λ i. not (expired_for now e i)) new d.org.invitations f,
      )

module _ (redacted : ℕ → Bool) (same_email : Text → Text → Bool) where
  ended-recent :
      (now : ℕ) (created_at : ℕ → ℕ) (org : Organization) (o : Option Invitation)
      → recent now created_at
          (after org (
            with_invitation redacted same_email now none
              (λ i. saved (remove_invitation i.id org))
              o)).invitations
        ≤ recent now created_at org.invitations
  unfolding after with_invitation remove_invitation
  ended-recent now created_at org none = ground arith
  ended-recent now created_at org (some i) =
      ground (arith, recent-keep_if now created_at (λ j. not (j.id == i.id)) org.invitations)

  revoked-recent :
      (now k : ℕ) (created_at : ℕ → ℕ) (org : Organization)
      → recent now created_at (after org (revoke redacted same_email now k org)).invitations
        ≤ recent now created_at org.invitations
  unfolding revoke
  revoked-recent now k created_at org =
      ended-recent now created_at org (find_invitation k org.invitations)

  module _ (email_of : ℕ → Text) (valid : Text → Bool) where
    step-recent :
        (e : Event) (d : Desk)
        → IsFresh e d
        → recent_at (time e) d ≤ 30
        → recent_at (time e) (step redacted same_email email_of valid e d) ≤ 30
    unfolding step destroy
    step-recent (creates now k e role) d f l = create-recent email_of valid now k e role d f l
    step-recent (revokes now k) d f l = omega (arith, l, revoked-recent now k d.created_at d.org)

    -- Events in the order of their times, none before the first one, with new keys for invitations.
    abbrev pub AreTimely : ℕ → List Event → Desk → Type 0
    AreTimely t [] d = Unit
    AreTimely t (e ∷ es) d =
        (t ≤ time e)
        × (IsFresh e d × AreTimely (time e) es (step redacted same_email email_of valid e d))

    -- Where at most 30 of the invitations that are in the table were created in the last hour, this is so
    -- after any invitations that are made and revoked in the order of time, where each has a key that is
    -- not in use. An invitation that was revoked is gone from the table and does not count.
    pub hourly_limit :
        (es : List Event) (t : ℕ) (d : Desk)
        → AreTimely t es d
        → recent_at t d ≤ 30
        → recent_at (last_time t es) (run redacted same_email email_of valid es d) ≤ 30
    unfolding run
    hourly_limit [] t d o l = l
    hourly_limit (e ∷ es) t d o l =
        hourly_limit es (time e) (step redacted same_email email_of valid e d) o.1.1 (
          step-recent e d o.1.0
            (omega (arith, l, recent-later t (time e) d.created_at d.org.invitations o.0)))
