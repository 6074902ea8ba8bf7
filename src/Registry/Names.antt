-- ===== src/Registry/Names.antt =====
-- Which of two classes of one name wins.
use moneygun.Base.{◌≡◌, ◌≢◌, refl, ◌∙◌, List, [], ◌∷◌, some, Text, codes, text_eq, text_ne}
use moneygun.Registry.{Class, from_package, Registry, lookup, loaded, start}

-- `register` gives its name the class, and leaves the other names alone.
pub record Registers (register : Text → Class → Registry → Registry) : Type 0 where
  pub gives : (n : Text) (c : Class) (r : Registry) → lookup n (register n c r) ≡ some c
  pub leaves :
      (n m : Text) (c : Class) (r : Registry) → n ≢ m → lookup m (register n c r) ≡ lookup m r

-- The loader registers a class, except under a name that is taken.
pub record Yields (eager_register : Text → Class → Registry → Registry) : Type 0 where
  pub keeps :
      (n m : Text) (c d : Class) (r : Registry)
      → lookup m r ≡ some d
      → lookup m (eager_register n c r) ≡ some d

module _ (register eager_register : Text → Class → Registry → Registry)
    (registers : Registers register) (yields : Yields eager_register) where
  loaded_keeps :
      (imports : List (Text × Class)) (m : Text) (d : Class) (r : Registry)
      → lookup m r ≡ some d
      → lookup m (loaded register eager_register imports r) ≡ some d
  unfolding loaded
  loaded_keeps [] m d r h = h
  loaded_keeps ((n, c) ∷ rest) m d r h =
      loaded_keeps rest m d (eager_register n c r) (yields.keeps n m c d r h)

  -- Whatever controllers the application brings along, "clipboard" stands for the class of the
  -- package: a controller of the application with that name is never registered.
  pub clipboard_is_package :
      (imports : List (Text × Class))
      → lookup (codes "clipboard") (start register eager_register imports)
        ≡ some (from_package (codes "clipboard"))
  unfolding start text_eq
  clipboard_is_package imports = loaded_keeps imports (codes "clipboard") _ _ (
      registers.leaves (codes "auto-submit") (codes "clipboard") _ _ (text_ne _ _ refl)
      ∙ registers.gives (codes "clipboard") _ _)
