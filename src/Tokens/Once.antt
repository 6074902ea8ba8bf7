-- ===== src/Tokens/Once.antt =====
-- A token is accepted at most once.
use moneygun.Base.{◌≡◌, true, false, List, [], ◌∷◌}
use moneygun.Tokens.{OneTime, attempts}

module _ {Attempt Token Table : Type 0} (o : OneTime Attempt Token Table) where
  attempts-Spent :
      (later : List Attempt) (k : Token) (t : Table) → o.Spent k t → o.Spent k (attempts o later t)
  unfolding attempts
  attempts-Spent [] k t h = h
  attempts-Spent (a ∷ later) k t h =
      attempts-Spent later k (o.consume a t).0 (o.stays_spent a k t h)

  -- After an attempt that was accepted, and any attempts in between, a second one with the same token
  -- is refused.
  pub second_refused :
      (a b : Attempt) (between : List Attempt) (t : Table)
      → o.IsValid t
      → (o.consume a t).1 ≡ true
      → o.token b ≡ o.token a
      → (o.consume b (attempts o between (o.consume a t).0)).1 ≡ false
  second_refused a b between t v h e =
      o.is_refused b (attempts o between (o.consume a t).0)
        (rw e (attempts-Spent between (o.token a) (o.consume a t).0 (o.gets_spent a t v h)))
