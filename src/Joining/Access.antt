-- ===== src/Joining/Access.antt =====
-- How one becomes a member.
use moneygun.Base.{ℕ, ◌≡◌, refl, Bool, true, false, Option, none, some, Text, Bool-cases, inl, inr}
use moneygun.Members.{Outcome, saved, refused, approve}
use moneygun.Members.Actions.{after}
use moneygun.Members.Gains.{is_in, approve-gains}
use moneygun.Members.Access.{Admits, apply-gains}
use moneygun.Joining.{
  Privacy, private, restricted, public, Request, Status, pending, approved, rejected, Place,
  participant, find_request, ask_restricted, ask_by, ask, approved_with, approve_found,
  approve_request, reject_request, withdraw, withdraw_found, withdraw_as, Event, asks,
  approves_request, rejects_request, withdraws, acts, step,
}

module _ (redacted : ℕ → Bool) (same_email : Text → Text → Bool) where
  -- What lets a user in: asking a public organization, an approved request that is there, or an
  -- operation on memberships or invitations that admits the user.
  abbrev pub Entered : Event → ℕ → Place → Type 0
  Entered (asks v) u p = (v ≡ u) × (p.privacy ≡ public)
  Entered (approves_request v) u p = (v ≡ u) × (r : Request) × (find_request v p.requests ≡ some r)
  Entered (acts a) u p = Admits redacted same_email a u p.org
  Entered _ u p = ⊥

  ask_restricted-org :
      (o : Option Request) (v : ℕ) (p : Place) → (ask_restricted o v p).0.org ≡ p.org
  unfolding ask_restricted
  ask_restricted-org none v p = refl
  ask_restricted-org (some r) v p = refl

  ask_by-gains :
      (s : Privacy) (v u : ℕ) (p : Place)
      → is_in u p.org ≡ false
      → is_in u (ask_by redacted s v p).0.org ≡ true
      → (v ≡ u) × (s ≡ public)
  unfolding ask_by
  ask_by-gains private v u p h e = cc
  ask_by-gains restricted v u p h e = cc (h, e, ask_restricted-org (find_request v p.requests) v p)
  ask_by-gains public v u p h e = (approve-gains redacted same_email v p.org u h e, refl)

  ask-gains :
      (v u : ℕ) (p : Place)
      → is_in u p.org ≡ false
      → is_in u (ask redacted v p).0.org ≡ true
      → (v ≡ u) × (p.privacy ≡ public)
  unfolding ask
  ask-gains v u p h e = elim (Bool-cases (participant v p.org)) [
    | inl b ↦ absurd (cc (h, rw b at e))
    | inr b ↦ ask_by-gains p.privacy v u p h (rw b at e)
  ]

  approved-gains :
      (v u : ℕ) (o : Outcome) (p : Place)
      → is_in u p.org ≡ false
      → is_in u (approved_with v o p).org ≡ true
      → is_in u (after p.org o) ≡ true
  unfolding approved_with after
  approved-gains v u (saved org) p h e = e
  approved-gains v u (refused f) p h e = cc

  approve_found-gains :
      (o : Option Request) (v u : ℕ) (p : Place)
      → is_in u p.org ≡ false
      → is_in u (approve_found redacted o v p).org ≡ true
      → (v ≡ u) × (r : Request) × (o ≡ some r)
  unfolding approve_found
  approve_found-gains none v u p h e = cc
  approve_found-gains (some r) v u p h e = (
    approve-gains redacted same_email v p.org u h
        (approved-gains v u (approve redacted v p.org) p h e),
    r,
    refl,
  )

  withdraw_as-org : (s : Status) (v : ℕ) (p : Place) → (withdraw_as s v p).org ≡ p.org
  unfolding withdraw_as
  withdraw_as-org pending v p = refl
  withdraw_as-org approved v p = refl
  withdraw_as-org rejected v p = refl

  withdrawn-org : (o : Option Request) (v : ℕ) (p : Place) → (withdraw_found o v p).org ≡ p.org
  unfolding withdraw_found
  withdrawn-org none v p = refl
  withdrawn-org (some r) v p = withdraw_as-org r.status v p

  -- A user who is no member and is one after an event asked a public organization, had a request that
  -- is approved by the event, was brought back or let in by an operation on memberships, or accepted an
  -- open invitation to their own address.
  pub step-Entered :
      (e : Event) (u : ℕ) (p : Place)
      → participant u p.org ≡ false
      → participant u (step redacted same_email e p).org ≡ true
      → Entered e u p
  unfolding step participant approve_request reject_request withdraw
  step-Entered (asks v) u p h e = ask-gains v u p h e
  step-Entered (approves_request v) u p h e =
      approve_found-gains (find_request v p.requests) v u p h e
  step-Entered (rejects_request v) u p h e = cc
  step-Entered (withdraws v) u p h e = cc (withdrawn-org (find_request v p.requests) v p, h, e)
  step-Entered (acts a) u p h e = apply-gains redacted same_email a p.org u h e
