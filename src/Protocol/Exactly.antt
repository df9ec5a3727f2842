-- ===== src/Protocol/Exactly.antt =====
-- Every AUTH message is answered exactly once, and nobody touches a message that was released.
use native.Mathlib.Decide.{ℕ_discrete, dec_lt}
use endpoint_security.Base.{ℕ, ◌≡◌, arith, ◌≤◌, ◌<◌, ◌⊎◌, false, true, refl}
use endpoint_security.Protocol.{
  State, matched, watch_sending, swept, Step, by_watchdog, by_handler, by_ruby, by_close, Reach,
  start, later,
}
use endpoint_security.Protocol.Invariant.{IsSound, History, bit, at_rest, sends}
use endpoint_security.Protocol.Watchdog.{WatchMove-IsSound, WatchMove-History}
use endpoint_security.Protocol.Handler.{HandlerMove-IsSound, HandlerMove-History}
use endpoint_security.Protocol.Ruby.{
  RubyMove-IsSound, RubyMove-History, CloseMove-IsSound, CloseMove-History,
}

Step-keeps : {s t : State} → Step s t → IsSound s × History s → IsSound t × History t
Step-keeps (by_watchdog mv) (v, h) = (WatchMove-IsSound mv v, WatchMove-History mv h)
Step-keeps (by_handler mv) (v, h) = (HandlerMove-IsSound mv v h, HandlerMove-History mv v h)
Step-keeps (by_ruby mv) (v, h) = (RubyMove-IsSound mv v, RubyMove-History mv h)
Step-keeps (by_close mv) (v, h) = (CloseMove-IsSound mv v, CloseMove-History mv h)

pub Reach-keeps : {s : State} → Reach s → IsSound s × History s
Reach-keeps start =
    (ground arith, record { past = λ g l. absurd (omega arith); future = λ g l. refl })
Reach-keeps (later r st) = Step-keeps st (Reach-keeps r)

-- No message of the slot is answered more than once. Each message before the present one, and the
-- present one once it has been released, was answered exactly once if it is an AUTH message, and
-- not at all otherwise.
pub answered_once :
    {s : State}
    → Reach s
    → ((g : ℕ) → s.answers g ≤ 1)
      × ((g : ℕ) → g < s.generation → s.answers g ≡ bit (s.auth g))
      × (s.retained ≡ false → s.answers s.generation ≡ bit (s.auth s.generation))
answered_once {s} r = let (v, h) = Reach-keeps r in (at_most v h, h.past, λ e. ground (arith, v))
  where
    at_most : IsSound s → History s → (g : ℕ) → s.answers g ≤ 1
    at_most v h g = elim (dec_lt g s.generation) [
      | yes old ↦ ground (arith, h.past g old)
      | no new ↦ elim (ℕ_discrete g s.generation) [
        | yes now ↦ rw now (ground (arith, v))
        | no next ↦ omega (arith, h.future g (omega arith))
      ]
    ]

-- Whoever has won the answer is alone in that, and until it has sent its response the message stays
-- retained; so does it while the watchdog is between its checks and its response.
pub response_on_retained :
    {s : State}
    → Reach s
    → (sends s ≤ 1)
      × (0 < sends s → s.retained ≡ true)
      × ((s.watch ≡ matched) ⊎ (s.watch ≡ watch_sending) → s.retained ≡ true)
response_on_retained r = let (v, h) = Reach-keeps r in ground (arith, v)

-- Once client_close_native has swept the slots, the AUTH message of a slot that is at rest, be it
-- queued or held by Ruby, has been answered once.
pub closed_answered :
    {s : State}
    → Reach s
    → s.stage ≡ swept
    → at_rest s.phase ≡ true
    → s.answers s.generation ≡ bit (s.auth s.generation)
closed_answered r e f = let (v, h) = Reach-keeps r in ground (arith, v)
