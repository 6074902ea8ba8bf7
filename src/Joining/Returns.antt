-- ===== src/Joining/Returns.antt =====
-- Removed users who ask again.
use moneygun.Base.{ℕ, ◌≡◌, refl, ap, ◌∙◌, sym, ◌≢◌, Bool, false, [], ◌∷◌, none, some, Text}
use moneygun.Members.{Membership, Organization, find_by_user, deactivate, approve}
use moneygun.Members.Actions.{deactivates, after, apply}
use moneygun.Members.Owner.{IsLed}
use moneygun.Members.Returns.{find-deactivate, find-approve}
use moneygun.Joining.{public, Place, participant, ask_by, ask, asks, acts, step, run}

module _ (redacted : ℕ → Bool) (same_email : Text → Text → Bool) where
  ask_public :
      (u : ℕ) (p : Place)
      → participant u p.org ≡ false
      → p.privacy ≡ public
      → (ask redacted u p).0.org ≡ after p.org (approve redacted u p.org)
  unfolding ask ask_by
  ask_public u p h e = rw (h, e) refl

  not_participant :
      (u now : ℕ) (m : Membership) (org : Organization)
      → find_by_user u org.memberships ≡ some (record m { deactivated_at = some now })
      → participant u org ≡ false
  unfolding participant
  not_participant u now m org f = rw f refl

  -- A removal from a public organization does not last: where the owner is an active admin, an active
  -- member other than the owner who is removed, and not redacted, gets back by asking, and has the
  -- membership of before, with its role.
  pub removed_returns :
      (now u : ℕ) (m : Membership) (p : Place)
      → IsLed p.org
      → p.privacy ≡ public
      → find_by_user u p.org.memberships ≡ some m
      → m.deactivated_at ≡ none
      → u ≢ p.org.owner_id
      → redacted u ≡ false
      → find_by_user u
          (run redacted same_email (acts (deactivates now u) ∷ asks u ∷ []) p).org.memberships
        ≡ some m
  unfolding run step apply
  removed_returns now u m p l e f a n r =
      let gone = after p.org (deactivate redacted now u p.org) in
      let f' = find-deactivate redacted now u m p.org l f n in
      ap (λ o. find_by_user u o.memberships)
        (ask_public u (record p { org = gone }) (not_participant u now m gone f') e)
      ∙ (find-approve redacted u (record m { deactivated_at = some now }) gone f' r
          ∙ ap (λ t. some (record m { deactivated_at = t })) (sym a))
