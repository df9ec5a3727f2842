-- ===== src/Queue.antt =====
-- ext/endpoint_security/queue.c: the bounded ring. Each function here is a whole call by a thread
-- that nobody interrupts; Queue/Threads interleaves the calls one atomic operation at a time.
-- `none` stands for a call that would go on spinning. `slots` is the C array, by index.
pub mod Init
pub mod Shape
pub mod Valid
pub mod Calls
pub mod Threads
pub mod Fresh
pub mod Answered
pub mod Modulo
mod Tests
use mathlib.Core.Option
use endpoint_security.Base.{
  ℕ, zero, suc, ◌-◌, ◌≡◌, Bool, true, false, not, ◌||◌, Option, none, some, ltb, ◌==◌,
  if◌then◌else◌, bit_and, add64, sub64, Difference, difference, update,
}
use endpoint_security.Base.Words.{zero_diff, negative_diff, positive_diff}
use endpoint_security.Slot.{Slot, fresh_slot}

pub record Queue : Type 0 where
  pub capacity : ℕ
  pub mask : ℕ
  pub slots : ℕ → Slot
  pub enqueue_position : ℕ
  pub dequeue_position : ℕ
  pub depth_max : ℕ

-- What esrb_queue_init stores.
abbrev pub fresh : ℕ → Queue
fresh capacity = record {
  capacity = capacity;
  mask = capacity - 1;
  slots = fresh_slot;
  enqueue_position = 0;
  dequeue_position = 0;
  depth_max = 0;
}

-- esrb_queue_init; `allocated` says whether `calloc` gave memory, and `none` is its `false`.
unfoldable pub init : ℕ → Bool → Option Queue
init capacity allocated =
    if ltb capacity 2 || not (bit_and capacity (capacity - 1) == 0)
    then none
    else if allocated
    then some (fresh capacity)
    else none

-- `&queue->slots[position & queue->mask]`, as an index
abbrev pub index_of : Queue → ℕ → ℕ
index_of q position = bit_and position q.mask

-- `slot->field = …` on the slot at `index`
abbrev pub write_slot : Queue → ℕ → Slot → Queue
write_slot q index slot = record q { slots = update q.slots index slot }

-- The loop of esrb_queue_enqueue. The compare-and-exchange succeeds where the position that was
-- read is still the queue's. `some (q, none)` is the NULL of a full ring.
unfoldable pub enqueue_loop : ℕ → Queue → ℕ → Option (Queue × Option ℕ)
enqueue_loop zero q position = none
enqueue_loop (suc rounds) q position =
    let index = index_of q position in
    let slot = q.slots index in
    let again = enqueue_loop rounds q q.enqueue_position in
    let claimed = some (
      record (write_slot q index (record slot { position = position })) {
        enqueue_position = add64 position 1;
      },
      some index,
    ) in
    elim (difference slot.sequence position) [
      | zero_diff ↦ if q.enqueue_position == position then claimed else again
      | negative_diff ↦ some (q, none)
      | positive_diff ↦ again
    ]

-- Two rounds: in a ring that is not being changed the first one decides.
abbrev pub rounds : ℕ
rounds = 2

unfoldable pub enqueue : Queue → Option (Queue × Option ℕ)
unfolding enqueue_loop
enqueue q = enqueue_loop rounds q q.enqueue_position

-- esrb_queue_publish: the deepest fill so far, then the sequence that lets a consumer in.
unfoldable pub publish : Queue → ℕ → Queue
publish q index =
    let slot = q.slots index in
    let depth = sub64 (add64 slot.position 1) q.dequeue_position in
    record (write_slot q index (record slot { sequence = add64 slot.position 1 })) {
      depth_max = if ltb q.depth_max depth then depth else q.depth_max;
    }

unfoldable pub dequeue_loop : ℕ → Queue → ℕ → Option (Queue × Option ℕ)
dequeue_loop zero q position = none
dequeue_loop (suc rounds) q position =
    let index = index_of q position in
    let slot = q.slots index in
    let again = dequeue_loop rounds q q.dequeue_position in
    let claimed = some (record q { dequeue_position = add64 position 1 }, some index) in
    elim (difference slot.sequence (add64 position 1)) [
      | zero_diff ↦ if q.dequeue_position == position then claimed else again
      | negative_diff ↦ some (q, none)
      | positive_diff ↦ again
    ]

unfoldable pub dequeue : Queue → Option (Queue × Option ℕ)
unfolding dequeue_loop
dequeue q = dequeue_loop rounds q q.dequeue_position

-- esrb_queue_disarm: nobody may start to read the slot, then wait for the reader that did.
unfoldable pub disarm : Slot → Option Slot
disarm slot = if slot.readers == 0 then some (record slot { occupied = false }) else none

unfoldable pub release : Queue → ℕ → Option Queue
unfolding disarm
release q index =
    Option.map
      (λ slot. write_slot q index (record slot { sequence = add64 slot.position q.capacity }))
      (disarm (q.slots index))

-- esrb_queue_depth: the ring at its first load, and at its second
unfoldable pub depth : Queue → Queue → ℕ
depth first second = sub64 first.enqueue_position second.dequeue_position
