-- ===== src/Protocol/Ruby.antt =====
-- The Ruby side, closing included, keeps the invariant of the slot.
use endpoint_security.Base.{arith, refl}
use endpoint_security.Protocol.{
  State, RubyMove, dequeue, respond_win, respond_send, release, release_win, release_send,
  release_skip, disarm, wait, drop, store, CloseMove, close, stop, sweep_win, sweep_send,
  sweep_skip, drain, drain_win, drain_send, drain_lose, drain_release, drain_done,
}
use endpoint_security.Protocol.Invariant.{IsSound, History}
use endpoint_security.Protocol.Watchdog.{answer-History}

pub RubyMove-IsSound : {s t : State} → RubyMove s t → IsSound s → IsSound t
RubyMove-IsSound (dequeue e f) v = ground arith
RubyMove-IsSound (respond_win e f g) v = ground arith
RubyMove-IsSound (respond_send e) v = ground arith
RubyMove-IsSound (release e f) v = ground arith
RubyMove-IsSound (release_win e f g) v = ground arith
RubyMove-IsSound (release_send e) v = ground arith
RubyMove-IsSound (release_skip e f) v = ground arith
RubyMove-IsSound (disarm e) v = ground arith
RubyMove-IsSound (wait e f) v = ground arith
RubyMove-IsSound (drop e) v = ground arith
RubyMove-IsSound (store e f) v = ground arith

pub RubyMove-History : {s t : State} → RubyMove s t → History s → History t
RubyMove-History (respond_send e) h = answer-History h refl refl refl
RubyMove-History (release_send e) h = answer-History h refl refl refl
RubyMove-History mv h = record { past = h.past; future = h.future }

pub CloseMove-IsSound : {s t : State} → CloseMove s t → IsSound s → IsSound t
CloseMove-IsSound (close e a b c d f g i) v = ground arith
CloseMove-IsSound (stop e f g) v = ground arith
CloseMove-IsSound (sweep_win e f g) v = ground arith
CloseMove-IsSound (sweep_send e) v = ground arith
CloseMove-IsSound (sweep_skip e f) v = ground arith
CloseMove-IsSound (drain e f) v = ground arith
CloseMove-IsSound (drain_win e f) v = ground arith
CloseMove-IsSound (drain_send e) v = ground arith
CloseMove-IsSound (drain_lose e f) v = ground arith
CloseMove-IsSound (drain_release e) v = ground arith
CloseMove-IsSound (drain_done e f) v = ground arith

pub CloseMove-History : {s t : State} → CloseMove s t → History s → History t
CloseMove-History (sweep_send e) h = answer-History h refl refl refl
CloseMove-History (drain_send e) h = answer-History h refl refl refl
CloseMove-History mv h = record { past = h.past; future = h.future }
