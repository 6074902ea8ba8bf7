-- ===== src/MagicLinks/Once.antt =====
-- A code signs in once.
use moneygun.Base.{
  inl, inr, Bool-cases, ◌≡◌, refl, Bool, true, false, List, [], ◌∷◌, Option, none, some, Text,
  text_eq_iff, text_eq_refl, arith,
}
use moneygun.MagicLinks.{
  Link, Attempt, sanitize, code_exists, matches, is_code, find_link, destroy, consume_found,
  consume,
}
use moneygun.Tokens.{OneTime, attempts}
use moneygun.Tokens.Once.{second_refused}

-- Whether an attempt is granted.
abbrev pub is_some : Option Link → Bool
is_some none = false
is_some (some l) = true

abbrev pub code_live : Option Text → List Link → Bool
code_live none ls = false
code_live (some c) ls = code_exists c ls

is_code-eq : (o : Option Text) (c : Text) → is_code o c ≡ true → o ≡ some c
unfolding is_code
is_code-eq none c h = cc
is_code-eq (some d) c h = ground (arith, text_eq_iff c d)

matches-is_code :
    (a : Attempt) (l : Link) → matches a l ≡ true → is_code (sanitize a.code) l.code ≡ true
unfolding matches
matches-is_code a l h = ground arith

pub matches-code : (a : Attempt) (l : Link) → matches a l ≡ true → sanitize a.code ≡ some l.code
matches-code a l h = is_code-eq (sanitize a.code) l.code (matches-is_code a l h)

destroy-dead : (c : Text) (ls : List Link) → code_exists c (destroy c ls) ≡ false
unfolding destroy code_exists
destroy-dead c [] = refl
destroy-dead c (l ∷ ls) = ground (arith, destroy-dead c ls)

destroy-stays :
    (c d : Text) (ls : List Link) → code_exists c ls ≡ false → code_exists c (destroy d ls) ≡ false
unfolding destroy code_exists
destroy-stays c d [] h = refl
destroy-stays c d (l ∷ ls) h = ground (arith, destroy-stays c d ls)

pub find-matches :
    (a : Attempt) (ls : List Link) (l : Link) → find_link a ls ≡ some l → matches a l ≡ true
unfolding find_link
find-matches a [] l h = cc
find-matches a (m ∷ ms) l h = ground (arith, find-matches a ms l)

tail_dead :
    (k : Option Text) (m : Link) (ms : List Link)
    → code_live k (m ∷ ms) ≡ false
    → code_live k ms ≡ false
unfolding code_exists
tail_dead none m ms h = refl
tail_dead (some c) m ms h = ground arith

head_live :
    (k : Option Text) (m : Link) (ms : List Link) → k ≡ some m.code → code_live k (m ∷ ms) ≡ true
unfolding code_exists
head_live none m ms e = cc
head_live (some c) m ms e = ground (arith, e, text_eq_refl m.code)

find_dead :
    (a : Attempt) (ls : List Link) → code_live (sanitize a.code) ls ≡ false → find_link a ls ≡ none
unfolding find_link code_exists
find_dead a [] h = refl
find_dead a (m ∷ ms) h = elim (Bool-cases (matches a m)) [
  | inl e ↦ absurd (ground (arith, h, head_live (sanitize a.code) m ms (matches-code a m e)))
  | inr e ↦ rw e (find_dead a ms (tail_dead (sanitize a.code) m ms h))
]

pub consume_dead :
    (a : Attempt) (ls : List Link)
    → code_live (sanitize a.code) ls ≡ false
    → is_some (consume a ls).1 ≡ false
unfolding consume consume_found
consume_dead a ls h = rw (find_dead a ls h) refl

found_stays :
    (o : Option Link) (c : Text) (ls : List Link)
    → code_exists c ls ≡ false
    → code_exists c (consume_found o ls).0 ≡ false
unfolding consume_found
found_stays none c ls h = h
found_stays (some l) c ls h = destroy-stays c l.code ls h

pub consume_stays :
    (a : Attempt) (k : Option Text) (ls : List Link)
    → code_live k ls ≡ false
    → code_live k (consume a ls).0 ≡ false
unfolding consume
consume_stays a none ls h = refl
consume_stays a (some c) ls h = found_stays (find_link a ls) c ls h

found_spent :
    (o : Option Link) (k : Option Text) (ls : List Link)
    → ((l : Link) → o ≡ some l → k ≡ some l.code)
    → is_some (consume_found o ls).1 ≡ true
    → code_live k (consume_found o ls).0 ≡ false
unfolding consume_found
found_spent none k ls q h = cc
found_spent (some l) k ls q h = rw (q l refl) (destroy-dead l.code ls)

pub consume_spent :
    (a : Attempt) (ls : List Link)
    → is_some (consume a ls).1 ≡ true
    → code_live (sanitize a.code) (consume a ls).0 ≡ false
unfolding consume
consume_spent a ls h =
    found_spent (find_link a ls) (sanitize a.code) ls
      (λ l e. matches-code a l (find-matches a ls l e)) h

-- Magic links are one-time tokens, named by their codes.
abbrev pub magic_links : OneTime Attempt (Option Text) (List Link)
magic_links = record {
  consume = λ a ls. ((consume a ls).0, is_some (consume a ls).1);
  token = λ a. sanitize a.code;
  IsValid = λ ls. Unit;
  Spent = λ k ls. code_live k ls ≡ false;
  stays_valid = λ a ls v. tt;
  gets_spent = λ a ls v h. consume_spent a ls h;
  stays_spent = consume_stays;
  is_refused = consume_dead;
}

-- After a code was used, and any other attempts, it is refused in whatever spelling, by anybody, for
-- any purpose and at any time.
pub code_once :
    (a b : Attempt) (between : List Attempt) (ls : List Link)
    → is_some (consume a ls).1 ≡ true
    → sanitize b.code ≡ sanitize a.code
    → is_some (consume b (attempts magic_links between (consume a ls).0)).1 ≡ false
code_once a b between ls h e = second_refused magic_links a b between ls tt h e
