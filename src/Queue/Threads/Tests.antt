-- ===== src/Queue/Threads/Tests.antt =====
-- One producer and one consumer on a ring of four slots: thread 0 publishes message 7, thread 1
-- takes it.
use endpoint_security.Base.{ℕ, ◌+◌, ◌≤◌, ◌<◌, ◌≡◌, refl, some, true, arith, bit_and, difference}
use endpoint_security.Queue.{fresh, init}
use endpoint_security.Queue.Init.{init_accepts}
use endpoint_security.Queue.Threads.{
  measuring, load_maximum, raise_win, enter_enqueue, enq_free, enq_win, store_position, fill,
  measure, publish, enter_dequeue, deq_ready, deq_win, System, pick, Reach, start, later,
}
use endpoint_security.Queue.Shape.{init-IsShape}
use endpoint_security.Queue.Threads.Safety.{
  delivered, log, exclusive_slots, depth_bounded, first_in_first_out, held_message,
}

made : init 4 true ≡ some (fresh 4)
unfolding init
made = refl

record Run : Type 0 where
  last : System
  reach : Reach 4 3 12 last

handover : Run
unfolding difference
handover = record {
  last = _;
  reach =
      later
        (later
          (later
            (later
              (later
                (later
                  (later
                    (later
                      (later
                        (later (later (later start (pick 0 enter_enqueue)) (pick 0 (enq_free refl)))
                          (pick 0 (enq_win refl)))
                        (pick 0 store_position))
                      (pick 0 (fill 7)))
                    (pick 0 measure))
                  (pick 0 load_maximum))
                (pick 0 (raise_win (omega arith) refl)))
              (pick 0 publish))
            (pick 1 enter_dequeue))
          (pick 1 (deq_ready refl)))
        (pick 1 (deq_win refl));
}

init_accepts_example : (init 4 true ≡ some (fresh 4)) × (init 4 true ≡ some (fresh 4))
init_accepts_example =
    ((init_accepts 4).1 (omega arith, 2, refl), (init_accepts 4).1 (omega arith, 2, refl))

exclusive_slots_example : ◌≡◌ {A = ℕ} 1 1
unfolding handover
exclusive_slots_example =
    exclusive_slots 4 made (omega arith) handover.reach (omega arith) 1 1 0 refl refl

depth_bounded_example :
    (1 ≤ 1 + 4)
    × (1 ≤ 1)
    × ((t i depth : ℕ) → handover.last.pc t ≡ measuring i depth → (0 < depth) × (depth ≤ 4))
    × (1 ≤ 4)
unfolding handover
depth_bounded_example = depth_bounded 4 made (omega arith) handover.reach (omega arith)

first_in_first_out_example :
    delivered (init-IsShape 4 true made (omega arith)) handover.reach
    ≡ log handover.last.ring.written handover.last.ring.dequeue_position
first_in_first_out_example = first_in_first_out 4 made (omega arith) handover.reach (omega arith)

held_message_example : (0 ≡ bit_and 0 3) × (0 < 1) × ◌≡◌ {A = ℕ} 7 7
unfolding handover
held_message_example = held_message 4 made (omega arith) handover.reach (omega arith) 1 0 refl
