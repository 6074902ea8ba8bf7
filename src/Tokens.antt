-- ===== src/Tokens.antt =====
-- What the tokens that sign a user in promise, whichever table holds them: a token that was accepted
-- once is never accepted again. app/models/magic_link.rb and app/models/saml_auth_request.rb fill the
-- interface.
pub mod Once
use moneygun.Base.{◌≡◌, Bool, true, false, List, [], ◌∷◌}

-- An attempt presents a token at some time, with what else the request holds. A token is `Spent` in a
-- table where no attempt with it can succeed.
pub record OneTime (Attempt Token Table : Type 0) : Type 1 where
  pub consume : Attempt → Table → Table × Bool
  pub token : Attempt → Token
  pub IsValid : Table → Type 0
  pub Spent : Token → Table → Type 0
  pub stays_valid : (a : Attempt) (t : Table) → IsValid t → IsValid (consume a t).0
  pub gets_spent :
      (a : Attempt) (t : Table)
      → IsValid t
      → (consume a t).1 ≡ true
      → Spent (token a) (consume a t).0
  pub stays_spent : (a : Attempt) (k : Token) (t : Table) → Spent k t → Spent k (consume a t).0
  pub is_refused : (a : Attempt) (t : Table) → Spent (token a) t → (consume a t).1 ≡ false

module _ {Attempt Token Table : Type 0} (o : OneTime Attempt Token Table) where
  -- Attempts of anybody, in turn.
  pub attempts : List Attempt → Table → Table
  attempts [] t = t
  attempts (a ∷ later) t = attempts later (o.consume a t).0
