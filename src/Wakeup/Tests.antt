-- ===== src/Wakeup/Tests.antt =====
-- The dispatcher drains nothing, and looks at the ring before thread 0 claims position 0.
use endpoint_security.Base.{refl, arith}
use endpoint_security.Wakeup.{
  State, claim, read, stop, store, look_empty, by_thread, by_dispatcher, Reach, start, later,
}
use endpoint_security.Wakeup.Awake.{Wakes, no_lost_wakeup}

record Run : Type 0 where
  last : State
  reach : Reach 1 last

claimed : Run
claimed = record {
  last = _;
  reach =
      later
        (later
          (later (later (later start (by_dispatcher (read refl))) (by_dispatcher (stop refl)))
            (by_dispatcher (store refl)))
          (by_dispatcher (look_empty refl refl)))
        (by_thread 0 (claim refl));
}

no_lost_wakeup_example : Wakes 1 claimed.last
unfolding claimed
no_lost_wakeup_example = no_lost_wakeup (omega arith) claimed.reach refl refl (omega arith)
