-- ===== src/Transient/Examples.antt =====
-- A flash message of five seconds, and a word typed into a search field.
use moneygun.Base.{◌≡◌, refl, true, none}
use moneygun.Transient.{Element, dismiss_flash, click_remove}

abbrev message : Element
message = record { attached = true; due = none }

both_remove : dismiss_flash message ≡ click_remove message
unfolding dismiss_flash click_remove
both_remove = refl
