-- ===== src/Clipboard/Feedback.antt =====
-- What the user reads and hears after any number of copies.
use moneygun.Base.{
  ◌≡◌, refl, ◌≢◌, ◌⊎◌, Bool, true, false, List, [], ◌∷◌, ◌++◌, none, some, Text, or_text,
  if◌then◌else◌, arith,
}
use moneygun.Clipboard.{Clipboard, connect, disconnect, Event, copies, timer, frame, step, run}

-- The button shows its default content, or the success content while the timer runs.
record IsReset (content : Text) (c : Clipboard) : Type 0 where
  default : c.default_content ≡ some content
  shown : c.button ≡ (if c.reset_timer then some c.success_content else some content)

connect-IsReset :
    (content : Text) (c : Clipboard)
    → c.button ≡ some content
    → c.reset_timer ≡ false
    → IsReset content (connect c)
unfolding connect
connect-IsReset content c h t = ground arith

step-IsReset :
    (content : Text) (e : Event) (c : Clipboard) → IsReset content c → IsReset content (step e c)
unfolding step
step-IsReset content (copies true) c v = ground arith
step-IsReset content (copies false) c v = ground arith
step-IsReset content timer c v = ground arith
step-IsReset content frame c v = ground arith

run-IsReset :
    (content : Text) (es : List Event) (c : Clipboard)
    → IsReset content c
    → IsReset content (run es c)
unfolding run
run-IsReset content [] c v = v
run-IsReset content (e ∷ es) c v = run-IsReset content es (step e c) (step-IsReset content e c v)

timer_resets :
    (content : Text) (c : Clipboard) → IsReset content c → (step timer c).button ≡ some content
unfolding step
timer_resets content c v = ground arith

-- However often and however fast the text is copied, once the timer has run the button reads what it
-- read when the controller connected.
pub timer_restores_button :
    (content : Text) (c : Clipboard) (es : List Event)
    → c.button ≡ some content
    → c.reset_timer ≡ false
    → (step timer (run es (connect c))).button ≡ some content
timer_restores_button content c es h t =
    timer_resets content (run es (connect c))
      (run-IsReset content es (connect c) (connect-IsReset content c h t))

-- The message of a copy.
abbrev pub message_of : Clipboard → Bool → Text
message_of c true = or_text c.success_message c.success_content
message_of c false = c.failure_content

run-append : (es fs : List Event) (c : Clipboard) → run (es ++ fs) c ≡ run fs (run es c)
unfolding run
run-append [] fs c = refl
run-append (e ∷ es) fs c = run-append es fs (step e c)

record Keeps (c d : Clipboard) : Type 0 where
  messages : (message_of d true ≡ message_of c true) × (message_of d false ≡ message_of c false)
  present : d.status ≢ none

step-Keeps : (c : Clipboard) (e : Event) (d : Clipboard) → Keeps c d → Keeps c (step e d)
unfolding step
step-Keeps c (copies true) d k = ground arith
step-Keeps c (copies false) d k = ground arith
step-Keeps c timer d k = ground arith
step-Keeps c frame d k = ground arith

run-Keeps : (c : Clipboard) (es : List Event) (d : Clipboard) → Keeps c d → Keeps c (run es d)
unfolding run
run-Keeps c [] d k = k
run-Keeps c (e ∷ es) d k = run-Keeps c es (step e d) (step-Keeps c e d k)

last_spoken :
    (c d : Clipboard) (success : Bool)
    → Keeps c d
    → (step frame (step timer (step (copies success) d))).status ≡ some (message_of c success)
unfolding step
last_spoken c d true k = ground arith
last_spoken c d false k = ground arith

-- Whatever was copied before, the message of the last copy is the one that is announced in the next
-- frame, also if an earlier announcement was still waiting.
pub last_copy_announced :
    (c : Clipboard) (es : List Event) (success : Bool)
    → c.status ≢ none
    → (step frame (step timer (step (copies success) (run es c)))).status
      ≡ some (message_of c success)
last_copy_announced c es success h =
    last_spoken c (run es c) success
      (run-Keeps c es c (record { messages = (refl, refl); present = h }))

-- After a disconnection neither a timer nor a frame that was waiting changes anything.
pub disconnect_is_final :
    (c : Clipboard) (e : Event) → (e ≡ timer) ⊎ (e ≡ frame) → step e (disconnect c) ≡ disconnect c
unfolding step disconnect
disconnect_is_final c timer h = ground arith
disconnect_is_final c frame h = ground arith
disconnect_is_final c (copies b) h = ground arith
