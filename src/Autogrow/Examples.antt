-- ===== src/Autogrow/Examples.antt =====
-- A layout in which a text of 70 pixels stands in rows of 20.
use moneygun.Base.{ℕ, ◌≡◌, refl, true, false, Option, none, some, arith}
use moneygun.Autogrow.{Textarea, resize, set_overflow}
use moneygun.Autogrow.Growth.{resize_ends, IsSettled}

abbrev offset : Option ℕ → ℕ
offset none = 20
offset (some h) = h

abbrev scroll : Option ℕ → ℕ
scroll h = 70

grows :
    resize offset scroll 15 400 (some 20)
    ≡ some (record { height = some 80; overflow_auto = false })
unfolding resize set_overflow
grows = refl

stops :
    resize offset scroll 3 400 (some 20) ≡ some (record { height = some 60; overflow_auto = true })
unfolding resize set_overflow
stops = refl

resize_ends_example :
    (u : Textarea) × (resize offset scroll 15 400 (some 20) ≡ some u)
    × IsSettled offset scroll 15 20 u
resize_ends_example =
    resize_ends offset scroll 15 20 400 (omega arith) (λ h. omega arith) (omega arith)
