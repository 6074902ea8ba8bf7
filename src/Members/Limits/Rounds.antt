-- ===== src/Members/Limits/Rounds.antt =====
-- Invitations that are revoked at once, and the limit.
use moneygun.Base.{
  ℕ, suc, ◌+◌, ◌≤◌, ◌<◌, ◌≡◌, refl, ap, ◌∙◌, Bool, true, false, not, ◌==◌, ==_iff, List, [], ◌∷◌,
  ◌++◌, none, some, Text, keep_if, ltb, All, length, arith,
}
use moneygun.Members.{Role, Invitation, Organization}
use moneygun.Members.Actions.{find_invitation, remove_invitation, with_invitation, revoke, after}
use moneygun.Members.Inviting.{expired_for, already_invited, already_member, purge, invite}
use moneygun.Members.Limits.{
  Desk, recent, recent_at, stamped, after_save, Event, creates, revokes, create, destroy, step, run,
}

pub found_new :
    (k : ℕ) (q : Invitation → Bool) (new : Invitation) (is : List Invitation)
    → find_invitation k is ≡ none
    → (new.id == k) ≡ true
    → find_invitation k (keep_if q is ++ new ∷ []) ≡ some new
unfolding find_invitation
found_new k q new [] f n = ground arith
found_new k q new (i ∷ is) f n = ground (arith, found_new k q new is)

pub still_uninvited :
    (now : ℕ) (e : Text) (q : Invitation → Bool) (is : List Invitation)
    → already_invited now e is ≡ false
    → already_invited now e (keep_if q is) ≡ false
unfolding already_invited
still_uninvited now e q [] a = refl
still_uninvited now e q (i ∷ is) a = ground (arith, still_uninvited now e q is)

still_missing :
    (k : ℕ) (q : Invitation → Bool) (is : List Invitation)
    → find_invitation k is ≡ none
    → find_invitation k (keep_if q is) ≡ none
unfolding find_invitation
still_missing k q [] f = refl
still_missing k q (i ∷ is) f = ground (arith, still_missing k q is)

pub removed_new :
    (k : ℕ) (q : Invitation → Bool) (new : Invitation) (is : List Invitation)
    → find_invitation k is ≡ none
    → (new.id == k) ≡ true
    → keep_if (λ i. not (i.id == k)) (keep_if q is ++ new ∷ []) ≡ keep_if q is
unfolding find_invitation
removed_new k q new [] f n = ground arith
removed_new k q new (i ∷ is) f n = ground (arith, removed_new k q new is)

-- Fewer rows, and a time for one that is not there, are no more of the last hour.
pub recent-kept :
    (now t k : ℕ) (created_at : ℕ → ℕ) (q : Invitation → Bool) (is : List Invitation)
    → find_invitation k is ≡ none
    → recent now (stamped t k created_at) (keep_if q is) ≤ recent now created_at is
unfolding recent find_invitation
recent-kept now t k created_at q [] f = ground arith
recent-kept now t k created_at q (i ∷ is) f = ground (arith, recent-kept now t k created_at q is)

-- Each address is invited and the invitation revoked at once.
pub rounds : ℕ → Role → List (ℕ × Text) → List Event
rounds now role [] = []
rounds now role (r ∷ rs) = creates now r.0 r.1 role ∷ revokes now r.0 ∷ rounds now role rs

module _ (email_of : ℕ → Text) (valid : Text → Bool) where
  -- An address that may be invited, and a new key for the invitation.
  abbrev pub IsSendable : ℕ → Organization → ℕ × Text → Type 0
  IsSendable now org r =
      (valid r.1 ≡ true)
      × ((already_member email_of valid r.1 org.memberships ≡ false)
          × ((already_invited now r.1 org.invitations ≡ false)
              × (find_invitation r.0 org.invitations ≡ none)))

  abbrev kept_org : ℕ → Text → Organization → Organization
  kept_org now e org = record org { invitations = purge now e org.invitations }

  kept_org-IsSendable :
      (now : ℕ) (e : Text) (org : Organization) (rs : List (ℕ × Text))
      → All (IsSendable now org) rs
      → All (IsSendable now (kept_org now e org)) rs
  unfolding purge
  kept_org-IsSendable now e org [] h = tt
  kept_org-IsSendable now e org (r ∷ rs) h =
      let q : Invitation → Bool = λ i. not (expired_for now e i) in
      let s = h.0 in
      (
        (
          s.0,
          (
            s.1.0,
            (
              still_uninvited now r.1 q org.invitations s.1.1.0,
              still_missing r.0 q org.invitations s.1.1.1,
            ),
          ),
        ),
        kept_org-IsSendable now e org rs h.1,
      )

  invited_org : ℕ → ℕ → Text → Role → Organization → Organization
  invited_org now k e role org = record org {
    invitations =
        purge now e org.invitations
        ++ record { id = k; email = e; role = role; expires_at = now + 1_209_600 } ∷ [];
  }

  invite-invited_org :
      (now k : ℕ) (e : Text) (role : Role) (org : Organization)
      → IsSendable now org (k, e)
      → invite email_of valid now k e role org ≡ (invited_org now k e role org, true)
  unfolding invite invited_org purge
  invite-invited_org now k e role org s =
      rw
        (s.0, s.1.0, still_uninvited now e (λ i. not (expired_for now e i)) org.invitations s.1.1.0)
        refl

  module _ (redacted : ℕ → Bool) (same_email : Text → Text → Bool) where
    revoked_new :
        (now k : ℕ) (e : Text) (role : Role) (org : Organization)
        → find_invitation k org.invitations ≡ none
        → after
            (invited_org now k e role org)
            (revoke redacted same_email now k (invited_org now k e role org))
          ≡ kept_org now e org
    unfolding revoke after with_invitation remove_invitation invited_org purge
    revoked_new now k e role org f =
        let new : Invitation = record {
          id = k;
          email = e;
          role = role;
          expires_at = now + 1_209_600;
        } in
        let q : Invitation → Bool = λ i. not (expired_for now e i) in
        let late : ltb (now + 1_209_600) now ≡ false = ground arith in
        rw
          (
            found_new k q new org.invitations f ((==_iff k k).1 refl),
            late,
            removed_new k q new org.invitations f ((==_iff k k).1 refl),
          )
          refl

    -- A round leaves one more mail, and what is left of the rows that were there.
    round :
        (now k : ℕ) (e : Text) (role : Role) (d : Desk)
        → recent_at now d < 30
        → IsSendable now d.org (k, e)
        → destroy redacted same_email now k (create email_of valid now k e role d) ≡ record {
          org = kept_org now e d.org;
          created_at = stamped now k d.created_at;
          delivered = suc d.delivered;
        }
    unfolding create destroy after_save
    round now k e role d l s =
        let under : ltb (recent_at now d) 30 ≡ true = ground (arith, l) in
        rw (under, invite-invited_org now k e role d.org s, revoked_new now k e role d.org s.1.1.1)
          refl

    -- The limit of invitations in an hour does not count those that were revoked: where it is not
    -- reached, any number of addresses gets a mail at once when each invitation is revoked before the
    -- next one. The addresses are valid, have neither an active membership nor a pending invitation, and
    -- the keys are new.
    pub revoked_rounds :
        (now : ℕ) (role : Role) (rs : List (ℕ × Text)) (d : Desk)
        → recent_at now d < 30
        → All (IsSendable now d.org) rs
        → (run redacted same_email email_of valid (rounds now role rs) d).delivered
          ≡ d.delivered + length rs
    unfolding rounds run step purge
    revoked_rounds now role [] d l h = omega arith
    revoked_rounds now role (r ∷ rs) d l h =
        let q : Invitation → Bool = λ i. not (expired_for now r.1 i) in
        let next : Desk = record {
          org = kept_org now r.1 d.org;
          created_at = stamped now r.0 d.created_at;
          delivered = suc d.delivered;
        } in
        let under : recent_at now next < 30 =
          omega (arith, l, recent-kept now now r.0 d.created_at q d.org.invitations h.0.1.1.1) in
        ap (λ b. (run redacted same_email email_of valid (rounds now role rs) b).delivered)
          (round now r.0 r.1 role d l h.0)
        ∙ (revoked_rounds now role rs next under (kept_org-IsSendable now r.1 d.org rs h.1)
            ∙ omega arith)
