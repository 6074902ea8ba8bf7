-- ===== src/Scrolling/Following.antt =====
-- When new content is followed.
use moneygun.Base.{ℕ, ◌+◌, ◌-◌, ◌<◌, ◌≤◌, ◌≡◌, true, false, ltb, arith, if◌then◌else◌}
use moneygun.Scrolling.{Pane, bottom, connect, step, grows, scrolls, forces}

-- The pane is live, and its content is at least as high as its window.
pub record IsLive (p : Pane) : Type 0 where
  pub messages : p.has_messages ≡ true
  pub observes : p.observing ≡ true
  pub full : p.client_height ≤ p.scroll_height

connect-IsLive :
    (p : Pane)
    → p.has_messages ≡ true
    → p.client_height ≤ p.scroll_height
    → IsLive (connect p) × ((connect p).scroll_top ≡ bottom (connect p))
unfolding connect
connect-IsLive p h f = ground arith

-- A user who has scrolled up by `d` pixels is taken to the end by new content of the height `h` if
-- the end is then less than 100 pixels away, and stays in place otherwise.
pub grow_follows :
    (p : Pane) (d h : ℕ)
    → IsLive p
    → p.force_scroll ≡ false
    → d ≤ bottom p
    → let q = step (grows h) (step (scrolls d) p) in
      q.scroll_top ≡ (if ltb (d + h) 100 then bottom q else bottom p - d)
unfolding step
grow_follows p d h v f k = ground arith

-- A forced scroll takes the user to the end from anywhere, and is used up by that.
pub force_follows :
    (p : Pane) (d h : ℕ)
    → IsLive p
    → let q = step (grows h) (step forces (step (scrolls d) p)) in
      (q.scroll_top ≡ bottom q) × (q.force_scroll ≡ false)
unfolding step
force_follows p d h v = ground arith

-- Content of 100 pixels or more is not followed, not even by a user who was at the very end.
pub tall_content_not_followed :
    (p : Pane) (h : ℕ)
    → IsLive p
    → p.force_scroll ≡ false
    → p.scroll_top ≡ bottom p
    → 100 ≤ h
    → let q = step (grows h) p in (q.scroll_top ≡ p.scroll_top) × (q.scroll_top < bottom q)
unfolding step
tall_content_not_followed p h v f b t = ground arith
