-- ===== src/Members/Pending.antt =====
-- An address has one pending invitation of an organization at most.
use moneygun.Base.{
  text_eq-sym, ℕ, ◌+◌, ◌≤◌, ◌≡◌, Bool, true, false, not, ◌&&◌, ◌==◌, List, [], ◌∷◌, ◌++◌, Text,
  text_eq, keep_if, ltb, All, arith, Bool-cases, inl, inr,
}
use moneygun.Members.{Invitation, Organization}
use moneygun.Members.Actions.{remove_invitation}
use moneygun.Members.Inviting.{
  expired_for, purge, already_invited, extend, invite, resend, Event, invites, resends, ends, step,
  run,
}

-- Two invitations that are not both pending, or are for two addresses.
abbrev Apart : ℕ → Invitation → Invitation → Type 0
Apart now i j = (ltb now i.expires_at && (ltb now j.expires_at && text_eq j.email i.email)) ≡ false

abbrev pub AreSingle : ℕ → List Invitation → Type 0
AreSingle now [] = Unit
AreSingle now (i ∷ is) = All (Apart now i) is × AreSingle now is

later-Apart :
    (t now : ℕ) (i : Invitation) (is : List Invitation)
    → t ≤ now
    → All (Apart t i) is
    → All (Apart now i) is
later-Apart t now i [] l h = tt
later-Apart t now i (j ∷ js) l h = ground (arith, later-Apart t now i js l h.1, h.0)

later-AreSingle : (t now : ℕ) (is : List Invitation) → t ≤ now → AreSingle t is → AreSingle now is
later-AreSingle t now [] l h = tt
later-AreSingle t now (i ∷ is) l h = (later-Apart t now i is l h.0, later-AreSingle t now is l h.1)

keep_if-Apart :
    (now : ℕ) (q : Invitation → Bool) (i : Invitation) (is : List Invitation)
    → All (Apart now i) is
    → All (Apart now i) (keep_if q is)
keep_if-Apart now q i [] h = tt
keep_if-Apart now q i (j ∷ js) h = ground (arith, keep_if-Apart now q i js h.1, h.0)

keep_if-AreSingle :
    (now : ℕ) (q : Invitation → Bool) (is : List Invitation)
    → AreSingle now is
    → AreSingle now (keep_if q is)
keep_if-AreSingle now q [] h = tt
keep_if-AreSingle now q (i ∷ is) h =
    ground (arith, keep_if-AreSingle now q is h.1, keep_if-Apart now q i is h.0)

append-Apart :
    (now : ℕ) (i n : Invitation) (is : List Invitation)
    → All (Apart now i) is
    → Apart now i n
    → All (Apart now i) (is ++ n ∷ [])
append-Apart now i n [] h a = (a, tt)
append-Apart now i n (j ∷ js) h a = (h.0, append-Apart now i n js h.1 a)

append-AreSingle :
    (now : ℕ) (n : Invitation) (is : List Invitation)
    → already_invited now n.email is ≡ false
    → AreSingle now is
    → AreSingle now (is ++ n ∷ [])
unfolding already_invited
append-AreSingle now n [] h v = (tt, tt)
append-AreSingle now n (i ∷ is) h v = (
  append-Apart now i n is v.0 (ground (arith, h, text_eq-sym n.email i.email)),
  append-AreSingle now n is (ground (arith, h)) v.1,
)

-- The invitation that is extended was pending before.
extend-Apart :
    (now k : ℕ) (i : Invitation) (is : List Invitation)
    → All (Apart now i) is
    → All (Apart now i) (extend now k is)
unfolding extend
extend-Apart now k i [] h = tt
extend-Apart now k i (j ∷ js) h = ground (arith, h, extend-Apart now k i js h.1)

extended-Apart :
    (now : ℕ) (i : Invitation) (is : List Invitation)
    → ltb now i.expires_at ≡ true
    → All (Apart now i) is
    → All (Apart now (record i { expires_at = now + 1_209_600 })) is
extended-Apart now i [] e h = tt
extended-Apart now i (j ∷ js) e h = ground (arith, h, e, extended-Apart now i js e h.1)

extend-AreSingle :
    (now k : ℕ) (is : List Invitation) → AreSingle now is → AreSingle now (extend now k is)
unfolding extend
extend-AreSingle now k [] v = tt
extend-AreSingle now k (i ∷ is) v = elim (Bool-cases ((i.id == k) && ltb now i.expires_at)) [
  | inl e ↦ rw e (extended-Apart now i is (ground (arith, e)) v.0, v.1)
  | inr e ↦ rw e (extend-Apart now k i is v.0, extend-AreSingle now k is v.1)
]

abbrev time : Event → ℕ
time (invites now k e role) = now
time (resends now r k) = now
time (ends now k) = now

-- Events in the order of their times, none before the first one.
abbrev pub Ordered : ℕ → List Event → Type 0
Ordered t [] = Unit
Ordered t (e ∷ es) = (t ≤ time e) × Ordered (time e) es

abbrev pub last_time : ℕ → List Event → ℕ
last_time t [] = t
last_time t (e ∷ es) = last_time (time e) es

module _ (email_of : ℕ → Text) (valid : Text → Bool) where
  step-AreSingle :
      (e : Event) (org : Organization)
      → AreSingle (time e) org.invitations
      → AreSingle (time e) (step email_of valid e org).invitations
  unfolding step invite purge resend remove_invitation
  step-AreSingle (invites now k e role) org v = ground (
    arith,
    append-AreSingle now (record { id = k; email = e; role = role; expires_at = now + 1_209_600 })
        (keep_if (λ i. not (expired_for now e i)) org.invitations),
    keep_if-AreSingle now (λ i. not (expired_for now e i)) org.invitations v,
  )
  step-AreSingle (resends now true k) org v = extend-AreSingle now k org.invitations v
  step-AreSingle (resends now false k) org v = v
  step-AreSingle (ends now k) org v = keep_if-AreSingle now (λ i. not (i.id == k)) org.invitations v

  -- Where no address has two invitations that are pending, none has after any invitations that are
  -- made, sent again and ended in the order of time.
  pub run-AreSingle :
      (es : List Event) (t : ℕ) (org : Organization)
      → Ordered t es
      → AreSingle t org.invitations
      → AreSingle (last_time t es) (run email_of valid es org).invitations
  unfolding run
  run-AreSingle [] t org o v = v
  run-AreSingle (e ∷ es) t org o v =
      run-AreSingle es (time e) (step email_of valid e org) o.1
        (step-AreSingle e org (later-AreSingle t (time e) org.invitations o.0 v))
