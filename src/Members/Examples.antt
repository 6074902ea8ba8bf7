-- ===== src/Members/Examples.antt =====
-- An organization with an owner, a member, and a viewer who has left; and an invitation.
use moneygun.Base.{
  ℕ, ◌≡◌, refl, ◌==◌, Bool, true, false, [], ◌∷◌, none, some, codes, text_eq, arith, Text,
  if◌then◌else◌,
}
use moneygun.Members.{
  Membership, Invitation, Organization, admin, member, viewer, manual, by_invitation, saved,
  find_by_user, replace, may_destroy, approve, refused, invalid, redacted_user, is_admin, active,
  errors,
}
use moneygun.Members.Actions.{
  changes_role, deactivates, transfers, accepts, run, accept, remove_invitation,
}
use moneygun.Members.Owner.{IsLed}
use moneygun.Members.History.{run-IsLed}
use moneygun.Members.Uniqueness.{IsUnique}
use moneygun.Members.Inviting
use moneygun.Members.Inviting.{invite, invites, resends}
use moneygun.Members.Pending.{AreSingle, run-AreSingle}
use moneygun.Members.Rules.{obeys_all}
use moneygun.Members.Refinement.{company}
use moneygun.Members.Simulation.{run-refines}

abbrev owner_row : Membership
owner_row = record { user_id = 1; role = admin; deactivated_at = none; provisioned_via = manual }

abbrev member_row : Membership
member_row = record {
  user_id = 2;
  role = member;
  deactivated_at = none;
  provisioned_via = by_invitation;
}

abbrev left_row : Membership
left_row = record {
  user_id = 3;
  role = viewer;
  deactivated_at = some 50;
  provisioned_via = by_invitation;
}

abbrev invited : Invitation
invited = record { id = 7; email = codes "c@x"; role = admin; expires_at = 900 }

abbrev team : Organization
team = record {
  owner_id = 1;
  memberships = owner_row ∷ member_row ∷ left_row ∷ [];
  invitations = invited ∷ [];
}

abbrev nobody : ℕ → Bool
nobody u = false

abbrev user_3 : ℕ → Bool
user_3 u = u == 3

redacted_stays : approve user_3 3 team ≡ refused (invalid (redacted_user ∷ []))
unfolding approve errors find_by_user
redacted_stays = refl

accepts_again :
    accept nobody text_eq 60 7 3 (codes "c@x") team
    ≡ saved (record team {
      memberships =
          owner_row ∷ member_row ∷ record left_row { role = admin; deactivated_at = none } ∷ [];
      invitations = [];
    })
unfolding accept errors find_by_user text_eq replace remove_invitation
accepts_again = refl

team-IsLed : IsLed team
unfolding is_admin active
team-IsLed = refl

member_found : find_by_user 2 team.memberships ≡ some member_row
unfolding find_by_user
member_found = refl

member_active : active member_row.deactivated_at ≡ true
unfolding active
member_active = refl

member_may_leave : may_destroy member_row team member_row ≡ true
unfolding may_destroy
member_may_leave = refl

run-IsLed_example : IsLed (
    run nobody text_eq
      (transfers 2 ∷ deactivates 60 1 ∷ accepts 70 7 3 (codes "c@x") ∷ changes_role 2 viewer ∷ [])
      team)
run-IsLed_example =
    run-IsLed nobody text_eq
      (transfers 2 ∷ deactivates 60 1 ∷ accepts 70 7 3 (codes "c@x") ∷ changes_role 2 viewer ∷ [])
      team team-IsLed

team-IsUnique : IsUnique team
team-IsUnique = (refl, (refl, (refl, tt)))

run-refines_example :
    company
      (run nobody text_eq (transfers 2 ∷ deactivates 60 1 ∷ accepts 70 7 3 (codes "c@x") ∷ []) team)
    ≡ obeys_all nobody text_eq
        (transfers 2 ∷ deactivates 60 1 ∷ accepts 70 7 3 (codes "c@x") ∷ [])
        (company team)
run-refines_example =
    run-refines nobody text_eq (transfers 2 ∷ deactivates 60 1 ∷ accepts 70 7 3 (codes "c@x") ∷ [])
      team (record { led = team-IsLed; unique = team-IsUnique })

abbrev email_of : ℕ → Text
email_of u = if u == 1 then codes "a@x" else codes "b@x"

abbrev any_text : Text → Bool
any_text s = true

-- The owner is a member already, "c@x" is invited, and the invitation of "c@x" ends at 900.
member_not_invited : (invite email_of any_text 60 8 (codes "a@x") member team).1 ≡ false
unfolding invite text_eq
member_not_invited = refl

not_invited_twice : (invite email_of any_text 60 8 (codes "c@x") member team).1 ≡ false
unfolding invite text_eq
not_invited_twice = refl

expired_replaced :
    (invite email_of any_text 900 8 (codes "c@x") member team).0.invitations
    ≡ record { id = 8; email = codes "c@x"; role = member; expires_at = 1_210_500 } ∷ []
unfolding invite text_eq
expired_replaced = refl

run-AreSingle_example :
    AreSingle 950
      (Inviting.run email_of any_text
        (invites 60 8 (codes "d@x") member
          ∷ resends 70 true 7
          ∷ invites 950 9 (codes "c@x") viewer
          ∷ [])
        team).invitations
run-AreSingle_example =
    run-AreSingle email_of any_text
      (invites 60 8 (codes "d@x") member
        ∷ resends 70 true 7
        ∷ invites 950 9 (codes "c@x") viewer
        ∷ [])
      10 team (omega arith, (omega arith, (omega arith, tt))) (tt, tt)
