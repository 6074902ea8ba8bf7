-- ===== src/MagicLinks/Slots.antt =====
-- A user has at most one link for each slot of purposes.
use moneygun.Base.{
  ap, sym, ◌∙◌, ◌&&◌, ◌==◌, ℕ, ◌+◌, ◌≡◌, refl, Bool, false, not, List, [], ◌∷◌, Option, none, some,
  text_eq, leb, keep_if, All, arith,
}
use moneygun.MagicLinks.{
  Purpose, sign_in, sign_up, email_change, sudo, Link, one_of, slot, in_slot, consume_found,
  find_link, consume, cleanup, destroy, send_magic_link, Event, sent, attempted, cleaned, step, run,
}

-- The slots, numbered: signing in and signing up share one.
abbrev pub slot_number : Purpose → ℕ
slot_number sign_in = 0
slot_number sign_up = 0
slot_number email_change = 1
slot_number sudo = 2

one_of-slot : (p q : Purpose) → one_of q (slot p) ≡ (slot_number q == slot_number p)
unfolding one_of slot
one_of-slot sign_in sign_in = refl
one_of-slot sign_in sign_up = refl
one_of-slot sign_in email_change = refl
one_of-slot sign_in sudo = refl
one_of-slot sign_up sign_in = refl
one_of-slot sign_up sign_up = refl
one_of-slot sign_up email_change = refl
one_of-slot sign_up sudo = refl
one_of-slot email_change sign_in = refl
one_of-slot email_change sign_up = refl
one_of-slot email_change email_change = refl
one_of-slot email_change sudo = refl
one_of-slot sudo sign_in = refl
one_of-slot sudo sign_up = refl
one_of-slot sudo email_change = refl
one_of-slot sudo sudo = refl

abbrev Apart : Link → Link → Type 0
Apart l m = (m.user_id == l.user_id && slot_number m.purpose == slot_number l.purpose) ≡ false

-- No two links are of one user and of one slot.
abbrev pub IsSlotted : List Link → Type 0
IsSlotted [] = Unit
IsSlotted (l ∷ ls) = All (Apart l) ls × IsSlotted ls

keep_if-Apart :
    (q : Link → Bool) (l : Link) (ls : List Link) → All (Apart l) ls → All (Apart l) (keep_if q ls)
keep_if-Apart q l [] h = tt
keep_if-Apart q l (m ∷ ms) h = ground (arith, keep_if-Apart q l ms h.1, h.0)

keep_if-IsSlotted : (q : Link → Bool) (ls : List Link) → IsSlotted ls → IsSlotted (keep_if q ls)
keep_if-IsSlotted q [] h = tt
keep_if-IsSlotted q (m ∷ ms) h =
    ground (arith, keep_if-IsSlotted q ms h.1, keep_if-Apart q m ms h.0)

not_in_slot :
    (l m : Link)
    → in_slot l.user_id l.purpose m ≡ false
    → (m.user_id == l.user_id && slot_number m.purpose == slot_number l.purpose) ≡ false
unfolding in_slot
not_in_slot l m h =
    ap (λ b. m.user_id == l.user_id && b) (sym (one_of-slot l.purpose m.purpose)) ∙ h

dropped-Apart :
    (l : Link) (ls : List Link)
    → All (Apart l) (keep_if (λ m. not (in_slot l.user_id l.purpose m)) ls)
dropped-Apart l [] = tt
dropped-Apart l (m ∷ ms) = ground (arith, dropped-Apart l ms, not_in_slot l m)

found-IsSlotted :
    (o : Option Link) (ls : List Link) → IsSlotted ls → IsSlotted (consume_found o ls).0
unfolding consume_found destroy
found-IsSlotted none ls h = h
found-IsSlotted (some l) ls h = keep_if-IsSlotted (λ m. not (text_eq m.code l.code)) ls h

step-IsSlotted : (e : Event) (ls : List Link) → IsSlotted ls → IsSlotted (step e ls)
unfolding step send_magic_link consume cleanup
step-IsSlotted (sent now u p e c) ls h = (
  dropped-Apart
      (record { user_id = u; purpose = p; code = c; new_email = e; expires_at = now + 900 }) ls,
  keep_if-IsSlotted (λ m. not (in_slot u p m)) ls h,
)
step-IsSlotted (attempted a) ls h = found-IsSlotted (find_link a ls) ls h
step-IsSlotted (cleaned now) ls h = keep_if-IsSlotted (λ l. not (leb l.expires_at now)) ls h

-- Where no user has two links for one slot of purposes, none ever has, however links are sent, used and
-- cleaned up; signing in and signing up share a slot.
pub run-IsSlotted : (es : List Event) (ls : List Link) → IsSlotted ls → IsSlotted (run es ls)
unfolding run
run-IsSlotted [] ls h = h
run-IsSlotted (e ∷ es) ls h = run-IsSlotted es (step e ls) (step-IsSlotted e ls h)
