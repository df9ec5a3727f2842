-- ===== src/Protocol/Watchdog.antt =====
-- answer_due keeps the invariant of the slot.
use endpoint_security.Base.{◌≡◌, arith, refl}
use endpoint_security.Protocol.{
  State, answer, WatchMove, look, enter, check, gone, same, other, win, lose, send, leave,
}
use endpoint_security.Protocol.Invariant.{IsSound, History}

pub WatchMove-IsSound : {s t : State} → WatchMove s t → IsSound s → IsSound t
WatchMove-IsSound (look e a b c d f) v = ground arith
WatchMove-IsSound (enter e a) v = ground arith
WatchMove-IsSound (check e a b) v = ground arith
WatchMove-IsSound (gone e a b) v = ground arith
WatchMove-IsSound (same e a b) v = ground arith
WatchMove-IsSound (other e a b) v = ground arith
WatchMove-IsSound (win a b) v = ground arith
WatchMove-IsSound (lose a b) v = ground arith
WatchMove-IsSound (send a) v = ground arith
WatchMove-IsSound (leave a) v = ground arith

-- A response counts for the present message only.
pub answer-History :
    {s t : State}
    → History s
    → t.generation ≡ s.generation
    → t.auth ≡ s.auth
    → t.answers ≡ answer s
    → History t
answer-History {s} {t} h e a b = record {
  past = λ g l. rw b (ground (arith, h.past g));
  future = λ g l. ground (arith, b, h.future g);
}

pub WatchMove-History : {s t : State} → WatchMove s t → History s → History t
WatchMove-History (look e a b c d f) h = record { past = h.past; future = h.future }
WatchMove-History (send a) h = answer-History h refl refl refl
WatchMove-History mv h = record { past = h.past; future = h.future }
