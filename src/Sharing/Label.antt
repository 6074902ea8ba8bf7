-- ===== src/Sharing/Label.antt =====
-- What the label reads once the timers are over.
use moneygun.Base.{◌≡◌, true, false, [], ◌∷◌, ◌++◌, some, Text, or_text, arith}
use moneygun.Sharing.{Share, share, timer}

-- Without a share sheet, sharing copies the URL (that of the page, if none is given) and shows the
-- success text, and the label is back when the timer has run.
pub share_then_timer :
    (s : Share) (original : Text)
    → s.can_share ≡ false
    → s.label ≡ some original
    → s.timers ≡ []
    → ((share s).clipboard ≡ some (or_text s.url_value s.location))
      × ((share s).label ≡ some s.success_text)
      × ((timer (share s)).label ≡ some original)
      × ((timer (share s)).timers ≡ [])
unfolding share timer
share_then_timer s original c l t = ground arith

-- With a share sheet nothing is copied, and the label stays.
pub share_sheet :
    (s : Share)
    → s.can_share ≡ true
    → ((share s).clipboard ≡ s.clipboard)
      × ((share s).label ≡ s.label)
      × ((share s).shared ≡ s.shared ++ (s.title_value, or_text s.url_value s.location) ∷ [])
unfolding share
share_sheet s c = ground arith

-- Sharing a second time before the timer has run takes the success text for the original label: once
-- both timers are over, the label reads the success text and no timer is left to change it.
pub share_twice_sticks :
    (s : Share) (original : Text)
    → s.can_share ≡ false
    → s.label ≡ some original
    → s.timers ≡ []
    → ((timer (timer (share (share s)))).label ≡ some s.success_text)
      × ((timer (timer (share (share s)))).timers ≡ [])
unfolding share timer
share_twice_sticks s original c l t = ground arith
