-- ===== src/Scim/Inviting.antt =====
-- From the request of an identity provider for an account that is there, through the consent of its
-- owner, to a membership.
use moneygun.Base.{
  ℕ, ◌+◌, ◌≤◌, ◌≡◌, refl, sym, Bool, true, false, not, ==_iff, List, [], ◌∷◌, ◌++◌, Option, none,
  some, Text, text_eq, ltb, arith,
}
use mathlib.Core.Path.{subst}
use moneygun.Members.{
  Role, Membership, Invitation, Organization, saved, by_invitation, find_by_user, join,
}
use moneygun.Members.Actions.{
  find_invitation, remove_invitation, is_active, accept_as, with_invitation, accept,
}
use moneygun.Members.Inviting.{expired_for, already_invited, already_member, invite, purge}
use moneygun.Members.Gains.{is_in}
use moneygun.Members.Limits.Rounds.{found_new, still_uninvited}
use moneygun.SignIn.{User, find_user}
use moneygun.Sso.Resolution.{Place}
use moneygun.Scim.{
  Resource, address_is, member_with, is_some, address_of, is_blank, ask_consent, requires_consent,
  create,
}

address_of-is :
    (e : Text) (o : Option User) → is_blank e ≡ false → text_eq (address_of o) e ≡ address_is e o
unfolding address_of address_is is_blank text_eq
address_of-is [] o b = cc
address_of-is (c ∷ cs) none b = refl
address_of-is (c ∷ cs) (some u) b = refl

not_member :
    (e : Text) (us : List User) (valid : Text → Bool) (ms : List Membership)
    → is_blank e ≡ false
    → is_some (member_with e us ms) ≡ false
    → already_member (λ u. address_of (find_user u us)) valid e ms ≡ false
unfolding already_member member_with is_some
not_member e us valid [] b h = refl
not_member e us valid (m ∷ ms) b h =
    ground (arith, not_member e us valid ms b, address_of-is e (find_user m.user_id us) b)

found_last :
    (u : ℕ) (m : Membership) (ms : List Membership)
    → m.user_id ≡ u
    → find_by_user u ms ≡ none
    → find_by_user u (ms ++ m ∷ []) ≡ some m
unfolding find_by_user
found_last u m [] e n = ground (arith, e)
found_last u m (b ∷ bs) e n = ground (arith, found_last u m bs e)

invitation_for : ℕ → ℕ → Role → Text → Invitation
invitation_for now k role e = record {
  id = k;
  email = e;
  role = role;
  expires_at = now + 1_209_600;
}

invited : ℕ → ℕ → Role → Text → Organization → Organization
invited now k role e org = record org {
  invitations = purge now e org.invitations ++ invitation_for now k role e ∷ [];
}

consent_asked :
    (r : Resource) (p : Place)
    → requires_consent r p ≡ true
    → (is_blank r.user_name ≡ false)
      × (is_some (member_with r.user_name p.users p.org.memberships) ≡ false)
unfolding requires_consent
consent_asked r p c = (ground arith, ground arith)

create-invited :
    (acceptable valid : Text → Bool) (now i k : ℕ) (role : Role) (r : Resource) (p : Place)
    → requires_consent r p ≡ true
    → already_invited now r.user_name p.org.invitations ≡ false
    → valid r.user_name ≡ true
    → (create acceptable valid now role i k r p).0.org ≡ invited now k role r.user_name p.org
unfolding create ask_consent invite invited invitation_for requires_consent
create-invited acceptable valid now i k role r p c a v =
    let asked = consent_asked r p c in
    rw
      (
        c,
        a,
        v,
        not_member r.user_name p.users valid p.org.memberships asked.0 asked.1,
        still_uninvited now r.user_name (λ j. not (expired_for now r.user_name j)) p.org.invitations
            a,
      )
      refl

module _ (redacted : ℕ → Bool) (same_email : Text → Text → Bool) where
  accepted_in :
      (i : Invitation) (u later : ℕ) (email : Text) (org : Organization)
      → find_invitation i.id org.invitations ≡ some i
      → ltb i.expires_at later ≡ false
      → same_email i.email email ≡ true
      → find_by_user u org.memberships ≡ none
      → (new : Organization) × (accept redacted same_email later i.id u email org ≡ saved new)
        × (is_in u new ≡ true)
  unfolding accept with_invitation accept_as is_active remove_invitation join
  accepted_in i u later email org f l s n =
      let row : Membership = record {
        user_id = u;
        role = i.role;
        deactivated_at = none;
        provisioned_via = by_invitation;
      } in
      (
        record (remove_invitation i.id org) { memberships = org.memberships ++ row ∷ [] },
        rw (f, l, s, n) refl,
        rw (found_last u row org.memberships refl n) refl,
      )

  -- A request to create a member that needs the consent of its user leaves an invitation, and the user
  -- who accepts it within 14 days is an active member, where the user has no membership, the address is
  -- valid and has no pending invitation, the number of the invitation is new, and the user's address is
  -- the one that was asked for.
  pub consent_lets_in :
      (acceptable valid : Text → Bool) (now later i k : ℕ) (role : Role) (r : Resource) (p : Place)
      (x : User)
      → requires_consent r p ≡ true
      → find_by_user x.id p.org.memberships ≡ none
      → already_invited now r.user_name p.org.invitations ≡ false
      → find_invitation k p.org.invitations ≡ none
      → valid r.user_name ≡ true
      → same_email r.user_name x.email ≡ true
      → later ≤ now + 1_209_600
      → (new : Organization) × (accept redacted same_email later k x.id x.email
            (create acceptable valid now role i k r p).0.org
          ≡ saved new)
        × (is_in x.id new ≡ true)
  unfolding invitation_for invited purge
  consent_lets_in acceptable valid now later i k role r p x c n a f v s l =
      subst
        (λ org.
          (new : Organization) × (accept redacted same_email later k x.id x.email org ≡ saved new)
          × (is_in x.id new ≡ true))
        (sym (create-invited acceptable valid now i k role r p c a v))
        (accepted_in (invitation_for now k role r.user_name) x.id later x.email
          (invited now k role r.user_name p.org)
          (found_new k (λ j. not (expired_for now r.user_name j))
            (invitation_for now k role r.user_name) p.org.invitations f ((==_iff k k).1 refl))
          (ground arith) s n)
