-- ===== src/Joining/Blocked.antt =====
-- A request that was approved stands in the way of another one.
use moneygun.Base.{
  ℕ, ◌≡◌, refl, ap, ◌∙◌, sym, ◌≢◌, Bool, true, false, List, [], ◌∷◌, ◌++◌, Option, none, some, Text,
  All, arith, Bool-cases, inl, inr,
}
use moneygun.Members.{Outcome, saved, refused, approve}
use moneygun.Joining.{
  Privacy, private, restricted, public, Request, Status, pending, approved, rejected, Place,
  participant, find_request, destroy_request, mark_approved, ask_restricted, ask_by, ask,
  approved_with, approve_found, approve_request, reject_request, withdraw, withdraw_found,
  withdraw_as, Event, asks, approves_request, rejects_request, withdraws, acts, step, run,
}

abbrev pub marked : Status → Bool
marked approved = true
marked _ = false

abbrev pub is_approved : Option Request → Bool
is_approved none = false
is_approved (some r) = marked r.status

-- The user has an approved request in a restricted organization.
pub record IsBlocked (u : ℕ) (p : Place) : Type 0 where
  pub closed : p.privacy ≡ restricted
  pub done : is_approved (find_request u p.requests) ≡ true

append-approved :
    (u : ℕ) (r : Request) (rs : List Request)
    → is_approved (find_request u rs) ≡ true
    → is_approved (find_request u (rs ++ r ∷ [])) ≡ true
unfolding find_request
append-approved u r [] h = cc
append-approved u r (q ∷ qs) h = ground (arith, append-approved u r qs)

mark-approved :
    (u v : ℕ) (rs : List Request)
    → is_approved (find_request u rs) ≡ true
    → is_approved (find_request u (mark_approved v rs)) ≡ true
unfolding find_request mark_approved
mark-approved u v [] h = cc
mark-approved u v (q ∷ qs) h = ground (arith, mark-approved u v qs)

destroy-approved :
    (u v : ℕ) (rs : List Request)
    → v ≢ u
    → is_approved (find_request u rs) ≡ true
    → is_approved (find_request u (destroy_request v rs)) ≡ true
unfolding find_request destroy_request
destroy-approved u v [] n h = cc
destroy-approved u v (q ∷ qs) n h = ground (arith, n, destroy-approved u v qs n)

restricted-IsBlocked :
    (o : Option Request) (u v : ℕ) (p : Place)
    → IsBlocked u p
    → IsBlocked u (ask_restricted o v p).0
unfolding ask_restricted
restricted-IsBlocked none u v p b = record {
  closed = b.closed;
  done = append-approved u _ p.requests b.done;
}
restricted-IsBlocked (some r) u v p b = b

approved_with-IsBlocked :
    (u v : ℕ) (o : Outcome) (p : Place) → IsBlocked u p → IsBlocked u (approved_with v o p)
unfolding approved_with
approved_with-IsBlocked u v (saved org) p b = record {
  closed = b.closed;
  done = mark-approved u v p.requests b.done;
}
approved_with-IsBlocked u v (refused f) p b = b

withdraw_as-IsBlocked :
    (s : Status) (u v : ℕ) (p : Place)
    → (v ≡ u → marked s ≡ true)
    → IsBlocked u p
    → IsBlocked u (withdraw_as s v p)
unfolding withdraw_as
withdraw_as-IsBlocked pending u v p q b = record {
  closed = b.closed;
  done = destroy-approved u v p.requests (λ e. cc (q e)) b.done;
}
withdraw_as-IsBlocked approved u v p q b = b
withdraw_as-IsBlocked rejected u v p q b = b

withdraw_found-IsBlocked :
    (o : Option Request) (u v : ℕ) (p : Place)
    → find_request v p.requests ≡ o
    → IsBlocked u p
    → IsBlocked u (withdraw_found o v p)
unfolding withdraw_found
withdraw_found-IsBlocked none u v p f b = b
withdraw_found-IsBlocked (some r) u v p f b =
    withdraw_as-IsBlocked r.status u v p
      (λ e. ap is_approved (sym f) ∙ (ap (λ w. is_approved (find_request w p.requests)) e ∙ b.done))
      b

-- No event but a rejection of the request of the user.
abbrev pub Spares : ℕ → Event → Type 0
Spares u (rejects_request v) = v ≢ u
Spares u _ = Unit

module _ (redacted : ℕ → Bool) (same_email : Text → Text → Bool) where
  ask_by-IsBlocked :
      (s : Privacy) (u v : ℕ) (p : Place) → IsBlocked u p → IsBlocked u (ask_by redacted s v p).0
  unfolding ask_by
  ask_by-IsBlocked private u v p b = b
  ask_by-IsBlocked restricted u v p b = restricted-IsBlocked (find_request v p.requests) u v p b
  ask_by-IsBlocked public u v p b = record { closed = b.closed; done = b.done }

  ask-IsBlocked : (u v : ℕ) (p : Place) → IsBlocked u p → IsBlocked u (ask redacted v p).0
  unfolding ask
  ask-IsBlocked u v p b = elim (Bool-cases (participant v p.org)) [
    | inl e ↦ rw e b
    | inr e ↦ rw e (ask_by-IsBlocked p.privacy u v p b)
  ]

  approve_found-IsBlocked :
      (o : Option Request) (u v : ℕ) (p : Place)
      → IsBlocked u p
      → IsBlocked u (approve_found redacted o v p)
  unfolding approve_found
  approve_found-IsBlocked none u v p b = b
  approve_found-IsBlocked (some r) u v p b =
      approved_with-IsBlocked u v (approve redacted v p.org) p b

  step-IsBlocked :
      (e : Event) (u : ℕ) (p : Place)
      → Spares u e
      → IsBlocked u p
      → IsBlocked u (step redacted same_email e p)
  unfolding step approve_request reject_request withdraw
  step-IsBlocked (asks v) u p n b = ask-IsBlocked u v p b
  step-IsBlocked (approves_request v) u p n b =
      approve_found-IsBlocked (find_request v p.requests) u v p b
  step-IsBlocked (rejects_request v) u p n b = record {
    closed = b.closed;
    done = destroy-approved u v p.requests n b.done;
  }
  step-IsBlocked (withdraws v) u p n b =
      withdraw_found-IsBlocked (find_request v p.requests) u v p refl b
  step-IsBlocked (acts a) u p n b = record { closed = b.closed; done = b.done }

  run-IsBlocked :
      (es : List Event) (u : ℕ) (p : Place)
      → All (Spares u) es
      → IsBlocked u p
      → IsBlocked u (run redacted same_email es p)
  unfolding run
  run-IsBlocked [] u p n b = b
  run-IsBlocked (e ∷ es) u p n b = run-IsBlocked es u _ n.1 (step-IsBlocked e u p n.0 b)

  restricted_refused :
      (o : Option Request) (u : ℕ) (p : Place)
      → is_approved o ≡ true
      → (ask_restricted o u p).1 ≡ false
  unfolding ask_restricted
  restricted_refused none u p h = cc
  restricted_refused (some r) u p h = refl

  blocked_refused : (u : ℕ) (p : Place) → IsBlocked u p → (ask redacted u p).1 ≡ false
  unfolding ask ask_by
  blocked_refused u p b = elim (Bool-cases (participant u p.org)) [
    | inl e ↦ rw e refl
    | inr e ↦ rw e (
        ap (λ s. (ask_by redacted s u p).1) b.closed
        ∙ restricted_refused (find_request u p.requests) u p b.done)
  ]

  -- In a restricted organization a user with an approved request can never ask again, whatever
  -- happens, also after a removal, unless that request is rejected.
  pub approved_blocks :
      (es : List Event) (u : ℕ) (p : Place)
      → IsBlocked u p
      → All (Spares u) es
      → (ask redacted u (run redacted same_email es p)).1 ≡ false
  approved_blocks es u p b n =
      blocked_refused u (run redacted same_email es p) (run-IsBlocked es u p n b)
