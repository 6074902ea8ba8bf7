-- ===== src/Members/Limits/Examples.antt =====
-- Three addresses that are invited at once.
use moneygun.Base.{
  ℕ, zero, suc, ◌+◌, ◌≤◌, ◌≡◌, refl, Bool, true, false, [], ◌∷◌, List, none, Text, codes, text_eq,
  arith,
}
use moneygun.Members.{Invitation, admin, member, manual, active}
use moneygun.Members.Actions.{find_invitation}
use moneygun.Members.Inviting.{already_invited, already_member, invite, purge}
use moneygun.Members.Limits.{
  Desk, recent, recent_at, Event, creates, revokes, create, destroy, step, run, after_save,
}
use moneygun.Members.Limits.Rounds.{rounds, revoked_rounds}
use moneygun.Members.Limits.Hourly.{hourly_limit, last_time}

abbrev address_of : ℕ → Text
address_of u = codes "a@x"

abbrev anything : Text → Bool
anything e = true

abbrev nobody : ℕ → Bool
nobody u = false

abbrev desk : Desk
desk = record {
  org = record {
    owner_id = 1;
    memberships =
        record { user_id = 1; role = admin; deactivated_at = none; provisioned_via = manual } ∷ [];
    invitations = record { id = 4; email = codes "d@x"; role = member; expires_at = 900 } ∷ [];
  };
  created_at = λ k. 100;
  delivered = 0;
}

abbrev targets : List (ℕ × Text)
targets = (7, codes "b@x") ∷ (7, codes "c@x") ∷ (8, codes "b@x") ∷ []

abbrev events : List Event
events =
    creates 5000 7 (codes "b@x") member ∷ creates 5001 8 (codes "c@x") member ∷ revokes 5002 7 ∷ []

-- Invitations of the same hour, with the keys below a number.
abbrev rows : ℕ → List Invitation
rows zero = []
rows (suc n) = record { id = n; email = codes "d@x"; role = member; expires_at = 900 } ∷ rows n

sent_with : ℕ → ℕ
unfolding create recent invite purge already_invited already_member active text_eq after_save
sent_with n =
    (create address_of anything 200 99 (codes "b@x") member
      (record desk { org = record desk.org { invitations = rows n } })).delivered

limit_is_30 : (sent_with 29 ≡ 1) × (sent_with 30 ≡ 0)
unfolding sent_with
limit_is_30 = (refl, refl)

revoked_rounds_example :
    (run nobody text_eq address_of anything (rounds 5000 member targets) desk).delivered ≡ 0 + 3
unfolding already_invited already_member find_invitation active text_eq recent
revoked_rounds_example =
    revoked_rounds address_of anything nobody text_eq 5000 member targets desk (omega arith) (
      (refl, (refl, (refl, refl))),
      ((refl, (refl, (refl, refl))), ((refl, (refl, (refl, refl))), tt)),
    )

hourly_limit_example :
    recent_at (last_time 4000 events) (run nobody text_eq address_of anything events desk) ≤ 30
unfolding create destroy step recent invite purge already_invited already_member active text_eq
    after_save find_invitation
hourly_limit_example =
    hourly_limit nobody text_eq address_of anything events 4000 desk
      (omega arith, (refl, (omega arith, (refl, (omega arith, (tt, tt)))))) (omega arith)
