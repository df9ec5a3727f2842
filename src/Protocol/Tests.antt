-- ===== src/Protocol/Tests.antt =====
-- An AUTH message that Ruby allows just before the watchdog looks: the watchdog loses the race, the
-- release waits for it, and the message was answered once.
use endpoint_security.Base.{ℕ, ◌≤◌, ◌<◌, ◌≡◌, ◌⊎◌, refl, inl, inr, true, false, arith}
use endpoint_security.Protocol.{
  State, Watch, look, enter, check, same, lose, leave, begin, occupy, arm, publish, dequeue,
  respond_win, respond_send, release, release_skip, disarm, wait, drop, by_watchdog, by_handler,
  by_ruby, by_close, close, stop, sweep_win, sweep_send, Reach, start, later,
}
use endpoint_security.Protocol.Invariant.{bit, sends}
use endpoint_security.Protocol.Exactly.{answered_once, response_on_retained, closed_answered}
use endpoint_security.Protocol.Wait.{Leaves, wait_ends}

record Run : Type 0 where
  last : State
  reach : Reach last

-- The handler queues AUTH message 1 at position 0, and Ruby takes it.
taken : Run
taken = record {
  last = _;
  reach =
      later
        (later
          (later
            (later (later start (by_handler (begin 0 true refl (inl refl))))
              (by_handler (occupy refl)))
            (by_handler (arm refl)))
          (by_handler (publish refl)))
        (by_ruby (dequeue refl refl));
}

-- Ruby answers it and releases it while the watchdog has a reader inside.
waiting : Run
unfolding taken
waiting = record {
  last = _;
  reach =
      later
        (later
          (later
            (later
              (later
                (later
                  (later (later taken.reach (by_watchdog (look 0 refl (cc) (cc) (cc) refl)))
                    (by_watchdog (enter 0 refl)))
                  (by_watchdog (check 0 refl refl)))
                (by_ruby (respond_win refl refl refl)))
              (by_ruby (respond_send refl)))
            (by_ruby (release refl (inl refl))))
          (by_ruby (release_skip refl (inr (cc)))))
        (by_ruby (disarm refl));
}

released : Run
unfolding taken waiting
released = record {
  last = _;
  reach =
      later
        (later
          (later
            (later (later waiting.reach (by_watchdog (same 0 refl refl)))
              (by_watchdog (lose refl (cc))))
            (by_watchdog (leave refl)))
          (by_ruby (wait refl (omega arith))))
        (by_ruby (drop refl));
}

-- The client is closed while Ruby holds the message unanswered.
closed_run : Run
unfolding taken
closed_run = record {
  last = _;
  reach =
      later
        (later
          (later (later taken.reach (by_close (close refl (cc) (cc) (cc) (cc) (cc) (cc) (cc))))
            (by_close (stop refl refl (inr (inr refl)))))
          (by_close (sweep_win refl refl refl)))
        (by_close (sweep_send refl));
}

answered_once_example :
    ((g : ℕ) → released.last.answers g ≤ 1)
    × ((g : ℕ)
        → g < released.last.generation
        → released.last.answers g ≡ bit (released.last.auth g))
    × (released.last.retained ≡ false
        → released.last.answers released.last.generation
          ≡ bit (released.last.auth released.last.generation))
answered_once_example = answered_once released.reach

response_on_retained_example :
    (sends waiting.last ≤ 1)
    × (0 < sends waiting.last → waiting.last.retained ≡ true)
    × ((waiting.last.watch ≡ Watch.matched) ⊎ (waiting.last.watch ≡ Watch.watch_sending)
        → waiting.last.retained ≡ true)
response_on_retained_example = response_on_retained waiting.reach

closed_answered_example : closed_run.last.answers 1 ≡ 1
unfolding closed_run taken
closed_answered_example = closed_answered closed_run.reach refl refl

wait_ends_example : Leaves waiting.last
unfolding waiting taken
wait_ends_example = wait_ends waiting.reach (inl refl)
