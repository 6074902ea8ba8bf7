-- ===== src/Registry/Examples.antt =====
-- A registry that keeps the newest class, and a loader that looks first.
use moneygun.Base.{◌∷◌, Option, none, some, Text, text_eq_iff, arith}
use moneygun.Registry.{Class, Registry, lookup}
use moneygun.Registry.Names.{Registers, Yields}

abbrev register : Text → Class → Registry → Registry
register n c r = (n, c) ∷ r

unless_taken : Option Class → Text → Class → Registry → Registry
unless_taken none n c r = register n c r
unless_taken (some d) n c r = r

abbrev eager_register : Text → Class → Registry → Registry
eager_register n c r = unless_taken (lookup n r) n c r

register-Registers : Registers register
unfolding lookup
register-Registers = record {
  gives = λ n c r. ground (arith, text_eq_iff n n);
  leaves = λ n m c r h. ground (arith, text_eq_iff n m);
}

eager_register-Yields : Yields eager_register
unfolding lookup unless_taken
eager_register-Yields = record { keeps = λ n m c d r h. ground (arith, text_eq_iff n m) }
