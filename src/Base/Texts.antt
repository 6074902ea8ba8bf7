-- ===== src/Base/Texts.antt =====
-- Strings of the source as lists of code units, with the operations of the JavaScript library that
-- the source calls on them.
use Prim.Native.Nat.{ℕ}
use Prim.Native.Char.{code}
use Prim.Native.String.{String}
use mathlib.Core.Path.{◌≡◌, refl}
use mathlib.Core.Logic.{◌↔◌, ◌≢◌}
use mathlib.Core.Bool.{Bool, true, false, ◌&&◌, ◌||◌}
use mathlib.Core.Option.{Option, none, some}
use mathlib.Core.List.{List, [], ◌∷◌}
use native.Mathlib.Omega.{arith}
use moneygun.Base.Tests.{◌==◌, leb, if◌then◌else◌}

abbrev pub Text : Type 0
Text = List ℕ

abbrev pub codes : String → Text
codes String.[] = []
codes (String.◌∷◌ c s) = code c ∷ codes s

-- A string is truthy if it is not empty.
abbrev pub truthy : Text → Bool
truthy [] = false
truthy (c ∷ cs) = true

-- `a || b` for two strings.
abbrev pub or_text : Text → Text → Text
or_text [] b = b
or_text (c ∷ cs) b = c ∷ cs

-- `a || b` where either may be undefined; an empty string is falsy.
abbrev pub or_value : Option Text → Option Text → Option Text
or_value none b = b
or_value (some []) b = b
or_value (some (c ∷ cs)) b = some (c ∷ cs)

-- `a || b` where only `a` may be undefined.
abbrev pub or_default : Option Text → Text → Text
or_default none b = b
or_default (some s) b = or_text s b

-- `a === b`.
unfoldable pub text_eq : Text → Text → Bool
text_eq [] [] = true
text_eq [] (c ∷ cs) = false
text_eq (c ∷ cs) [] = false
text_eq (c ∷ cs) (d ∷ ds) = c == d && text_eq cs ds

pub text_eq_iff : (s t : Text) → (text_eq s t ≡ true) ↔ (s ≡ t)
unfolding text_eq
text_eq_iff [] [] = ground arith
text_eq_iff [] (c ∷ cs) = ground arith
text_eq_iff (c ∷ cs) [] = ground arith
text_eq_iff (c ∷ cs) (d ∷ ds) = ground (arith, text_eq_iff cs ds)

pub text_eq_refl : (s : Text) → text_eq s s ≡ true
text_eq_refl s = (text_eq_iff s s).1 refl

-- The white space and line ends that `trim` takes away.
is_space : ℕ → Bool
is_space c =
    (leb 9 c && leb c 13)
    || c == 32
    || c == 160
    || c == 0x1680
    || (leb 0x2000 c && leb c 0x200a)
    || c == 0x2028
    || c == 0x2029
    || c == 0x202f
    || c == 0x205f
    || c == 0x3000
    || c == 0xfeff

trim_start : Text → Text
trim_start [] = []
trim_start (c ∷ cs) = let rest = trim_start cs in if is_space c then rest else c ∷ cs

-- `c ∷ rest` with the white space at its end taken away, where `rest` has none at its own.
end_cons : ℕ → Text → Text
end_cons c [] = if is_space c then [] else c ∷ []
end_cons c (d ∷ ds) = c ∷ d ∷ ds

trim_end : Text → Text
trim_end [] = []
trim_end (c ∷ cs) = end_cons c (trim_end cs)

-- `s.trim()`.
unfoldable pub trim : Text → Text
unfolding trim_start trim_end is_space end_cons
trim s = trim_end (trim_start s)

trim_end-end_cons : (c : ℕ) (r : Text) → trim_end r ≡ r → trim_end (end_cons c r) ≡ end_cons c r
unfolding trim_end end_cons
trim_end-end_cons c [] h = ground arith
trim_end-end_cons c (d ∷ ds) h = rw h

trim_end_idem : (s : Text) → trim_end (trim_end s) ≡ trim_end s
unfolding trim_end
trim_end_idem [] = refl
trim_end_idem (c ∷ cs) = trim_end-end_cons c (trim_end cs) (trim_end_idem cs)

-- Text that starts with no white space.
abbrev Starts : Text → Type 0
Starts [] = Unit
Starts (c ∷ cs) = is_space c ≡ false

trim_start-Starts : (s : Text) → Starts (trim_start s)
unfolding trim_start
trim_start-Starts [] = tt
trim_start-Starts (c ∷ cs) =
    elim (is_space c) as (λ b. is_space c ≡ b → Starts (if b then trim_start cs else c ∷ cs)) [
      | true ↦ λ e. trim_start-Starts cs
      | false ↦ λ e. e
    ]
      refl

end_cons-Starts : (c : ℕ) (r : Text) → is_space c ≡ false → Starts (end_cons c r)
unfolding end_cons
end_cons-Starts c [] h = rw h h
end_cons-Starts c (d ∷ ds) h = h

trim_end-Starts : (s : Text) → Starts s → Starts (trim_end s)
unfolding trim_end
trim_end-Starts [] h = tt
trim_end-Starts (c ∷ cs) h = end_cons-Starts c (trim_end cs) h

trim_start-of_Starts : (s : Text) → Starts s → trim_start s ≡ s
unfolding trim_start
trim_start-of_Starts [] h = refl
trim_start-of_Starts (c ∷ cs) h = rw h

-- Trimming text that is trimmed already changes nothing.
pub trim_idem : (s : Text) → trim (trim s) ≡ trim s
unfolding trim
trim_idem s = rw (
  trim_start-of_Starts (trim_end (trim_start s))
      (trim_end-Starts (trim_start s) (trim_start-Starts s)),
  trim_end_idem (trim_start s),
)

pub text_ne : (s t : Text) → text_eq s t ≡ false → s ≢ t
text_ne s t h e = cc ((text_eq_iff s t).1 e)

pub text_eq-sym : (s t : Text) → text_eq s t ≡ true → text_eq t s ≡ true
text_eq-sym s t h = rw ((text_eq_iff s t).0 h) (text_eq_refl t)
