-- ===== src/Widgets/Examples.antt =====
-- An amount field, a field that takes the focus, and a comment form.
use moneygun.Base.{◌≡◌, refl, true, false, [], codes}
use moneygun.Widgets.{default_values, auto_numeric_options, connect_focus, next_frame, reset_form}

euro : (auto_numeric_options default_values).maximum_value ≡ 99999999
unfolding auto_numeric_options default_values
euro = refl

focuses :
    (next_frame (connect_focus (record { frame_due = false; focused = false }))).focused ≡ true
unfolding next_frame connect_focus
focuses = refl

keeps_failed : reset_form false [] (codes "hi") ≡ codes "hi"
unfolding reset_form
keeps_failed = refl
