-- ===== src/Protocol/Handler.antt =====
-- handle_message keeps the invariant of the slot.
use endpoint_security.Base.{arith, suc, refl}
use endpoint_security.Protocol.{
  State, HandlerMove, begin, occupy, arm, arm_fails, unarmed_win, unarmed_lose, unarmed_send,
  publish,
}
use endpoint_security.Protocol.Invariant.{IsSound, History}
use endpoint_security.Protocol.Watchdog.{answer-History}

pub HandlerMove-IsSound : {s t : State} → HandlerMove s t → IsSound s → History s → IsSound t
HandlerMove-IsSound {s} (begin p a e f) v h = ground (arith, h.future (suc s.generation))
HandlerMove-IsSound (occupy e) v h = ground arith
HandlerMove-IsSound (arm e) v h = ground arith
HandlerMove-IsSound (arm_fails e f) v h = ground arith
HandlerMove-IsSound (unarmed_win e f) v h = ground arith
HandlerMove-IsSound (unarmed_lose e f) v h = ground arith
HandlerMove-IsSound (unarmed_send e) v h = ground arith
HandlerMove-IsSound (publish e) v h = ground arith

-- A new message closes the account of the one before.
pub HandlerMove-History : {s t : State} → HandlerMove s t → IsSound s → History s → History t
HandlerMove-History {s} (begin p a e f) v h = record {
  past = λ g l. ground (arith, h.past g);
  future = λ g l. ground (arith, h.future g);
}
HandlerMove-History (unarmed_send e) v h = answer-History h refl refl refl
HandlerMove-History mv v h = record { past = h.past; future = h.future }
