-- ===== src/Joining/Examples.antt =====
-- A team of an owner and another admin, and a user who has asked.
use moneygun.Base.{ℕ, ◌≡◌, refl, Bool, true, false, [], ◌∷◌, none, some, text_eq, arith}
use moneygun.Members.{
  Membership, Organization, admin, manual, by_invitation, find_by_user, active, is_admin, approve,
}
use moneygun.Members.Actions.{deactivates}
use moneygun.Members.Owner.{IsLed}
use moneygun.Joining.{
  restricted, public, pending, approved, Place, participant, find_request, ask, approve_request,
  asks, approves_request, withdraws, acts, step, run,
}
use moneygun.Joining.Access.{Entered, step-Entered}
use moneygun.Joining.Returns.{removed_returns}
use moneygun.Joining.Blocked.{IsBlocked, approved_blocks}

abbrev owner_row : Membership
owner_row = record { user_id = 1; role = admin; deactivated_at = none; provisioned_via = manual }

abbrev admin_row : Membership
admin_row = record {
  user_id = 2;
  role = admin;
  deactivated_at = none;
  provisioned_via = by_invitation;
}

abbrev team : Organization
team = record { owner_id = 1; memberships = owner_row ∷ admin_row ∷ []; invitations = [] }

abbrev nobody : ℕ → Bool
nobody u = false

abbrev open_team : Place
open_team = record { privacy = public; org = team; requests = [] }

abbrev asked_team : Place
asked_team = record {
  privacy = restricted;
  org = team;
  requests =
      record { user_id = 3; status = pending } ∷ record { user_id = 4; status = approved } ∷ [];
}

-- Who is no member yet.
outside : participant 3 asked_team.org ≡ false
unfolding participant find_by_user
outside = refl

inside : participant 3 (step nobody text_eq (approves_request 3) asked_team).org ≡ true
unfolding step participant find_by_user approve_request approve
inside = refl

step-Entered_example : Entered nobody text_eq (approves_request 3) 3 asked_team
step-Entered_example = step-Entered nobody text_eq (approves_request 3) 3 asked_team outside inside

-- A request cannot be made twice.
twice_refused : ask nobody 3 asked_team ≡ (asked_team, false)
unfolding ask participant find_by_user
twice_refused = refl

team-IsLed : IsLed team
unfolding is_admin active
team-IsLed = refl

admin_found : find_by_user 2 team.memberships ≡ some admin_row
unfolding find_by_user
admin_found = refl

removed_returns_example :
    find_by_user 2
      (run nobody text_eq (acts (deactivates 60 2) ∷ asks 2 ∷ []) open_team).org.memberships
    ≡ some admin_row
removed_returns_example =
    removed_returns nobody text_eq 60 2 admin_row open_team team-IsLed refl admin_found refl
      (λ e. omega (arith, e)) refl

asked-IsBlocked : IsBlocked 4 asked_team
unfolding find_request
asked-IsBlocked = record { closed = refl; done = refl }

approved_blocks_example :
    (ask nobody 4
      (run nobody text_eq (acts (deactivates 60 4) ∷ withdraws 4 ∷ asks 4 ∷ []) asked_team)).1
    ≡ false
approved_blocks_example =
    approved_blocks nobody text_eq (acts (deactivates 60 4) ∷ withdraws 4 ∷ asks 4 ∷ []) 4
      asked_team asked-IsBlocked (tt, (tt, (tt, tt)))
