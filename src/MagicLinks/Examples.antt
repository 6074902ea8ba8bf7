-- ===== src/MagicLinks/Examples.antt =====
-- Links for two users, one of them twice, and digits that come in turn.
use moneygun.Base.{
  ℕ, ◌≡◌, refl, Bool, true, false, [], ◌∷◌, List, none, some, Text, codes, text_eq, ltb, arith,
  if◌then◌else◌,
}
use moneygun.MagicLinks.{
  Link, Attempt, sign_in, sign_up, sudo, sanitize, generate_code, generate, code_exists, consume,
  matches, one_of,
}
use moneygun.MagicLinks.Once.{is_some, magic_links, code_once}
use moneygun.MagicLinks.Slots.{IsSlotted}
use moneygun.MagicLinks.Codes.{IsCode, IsDecimal}
use moneygun.Tokens.{attempts}

abbrev link_1 : Link
link_1 = record {
  user_id = 1;
  purpose = sign_in;
  code = codes "123456";
  new_email = none;
  expires_at = 900;
}

abbrev link_2 : Link
link_2 = record {
  user_id = 2;
  purpose = sudo;
  code = codes "000000";
  new_email = none;
  expires_at = 900;
}

abbrev links : List Link
links = link_1 ∷ link_2 ∷ []

abbrev anybody : ℕ → Bool
anybody u = true

abbrev typed : Text → Attempt
typed code = record {
  now = 60;
  owns = anybody;
  code = code;
  purposes = some (sign_in ∷ sign_up ∷ []);
  new_email = none;
}

spaced_granted : consume (typed (codes "123 456")) links ≡ (link_2 ∷ [], some link_1)
unfolding consume matches text_eq
spaced_granted = refl

sudo_refused : consume (typed (codes "000000")) links ≡ (links, none)
unfolding consume matches text_eq
sudo_refused = refl

first_granted : is_some (consume (typed (codes "123 456")) links).1 ≡ true
first_granted = rw spaced_granted refl

same_code : sanitize (codes "123456") ≡ sanitize (codes "123 456")
unfolding sanitize
same_code = refl

code_once_example :
    is_some
      (consume (typed (codes "123456")) (
        attempts magic_links
          (typed (codes "000000") ∷ [])
          (consume (typed (codes "123 456")) links).0)).1
    ≡ false
code_once_example =
    code_once (typed (codes "123 456")) (typed (codes "123456")) (typed (codes "000000") ∷ []) links
      first_granted same_code

links-IsSlotted : IsSlotted links
links-IsSlotted = ((refl, tt), (tt, tt))

-- Zeros for the first code, which is taken, and sevens from then on.
abbrev digit : ℕ → ℕ
digit n = if ltb n 6 then 0 else 7

digit-IsDecimal : IsDecimal digit
digit-IsDecimal n = ground arith

second_round : generate_code 2 digit 0 links ≡ some (codes "777777")
unfolding generate_code text_eq
second_round = refl

free_code : code_exists (generate digit 6 6) links ≡ false
unfolding code_exists generate text_eq
free_code = refl

sevens-IsCode : IsCode (codes "777777")
sevens-IsCode = (refl, (refl, (refl, (refl, (refl, (refl, (refl, tt)))))))

one_of_sign_in : one_of sign_in (sign_in ∷ sign_up ∷ []) ≡ true
unfolding one_of
one_of_sign_in = refl
