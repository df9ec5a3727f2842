-- ===== src/Watchdog.antt =====
-- ext/endpoint_security/watchdog.c: the request ring through which the handler hands a slot to the
-- watchdog, and the deadline heap of the watchdog thread. C arrays are functions of the index;
-- slots are named by their index in the ring, and `slot->watchdog_index` is a table by slot.
pub mod Order
pub mod Swap
pub mod Up
pub mod Down
pub mod Settle
pub mod Remove
pub mod Set
pub mod Fire
pub mod Requests
pub mod Fresh
pub mod Ring
pub mod Room
pub mod Take
pub mod Due
pub mod Fired
pub mod Round
mod Tests
mod RoundTests
use endpoint_security.Base.{
  ℕ, zero, suc, ◌+◌, ◌-◌, ◌*◌, ◌/◌, Bool, true, false, ◌&&◌, ◌||◌, not, Option, none, some, ltb,
  leb, ◌==◌, if◌then◌else◌, bit_and, add64, Difference, difference, update, u64_max,
}
use endpoint_security.Base.Words.{zero_diff, negative_diff, positive_diff}
use endpoint_security.Slot.{Slot}

-- esrb_watchdog_request_t
pub record Request : Type 0 where
  pub sequence : ℕ
  pub slot : ℕ
  pub position : ℕ
  pub fire_at : ℕ

-- esrb_watchdog_entry_t
pub record Entry : Type 0 where
  pub slot : ℕ
  pub position : ℕ
  pub fire_at : ℕ

-- esrb_watchdog_t without its mutex and condition
pub record Watchdog : Type 0 where
  pub capacity : ℕ
  pub mask : ℕ
  pub requests : ℕ → Request
  pub enqueue_position : ℕ
  pub dequeue_position : ℕ
  pub heap : ℕ → Entry
  pub heap_size : ℕ
  pub watchdog_index : ℕ → ℕ

-- `watchdog->heap[index].slot->watchdog_index = index`
abbrev pub store_index : Watchdog → ℕ → Watchdog
store_index w index = record w {
  watchdog_index = update w.watchdog_index (w.heap index).slot index;
}

abbrev pub store_entry : Watchdog → ℕ → Entry → Watchdog
store_entry w index e = record w { heap = update w.heap index e }

unfoldable pub heap_swap : Watchdog → ℕ → ℕ → Watchdog
heap_swap w left right =
    store_index
      (store_index (store_entry (store_entry w left (w.heap right)) right (w.heap left)) left) right

abbrev pub key : Watchdog → ℕ → ℕ
key w index = (w.heap index).fire_at

abbrev pub parent : ℕ → ℕ
parent index = (index - 1) / 2

-- The `while` of heap_up, with at most so many rounds.
unfoldable pub heap_up_loop : ℕ → Watchdog → ℕ → Watchdog
heap_up_loop zero w index = w
heap_up_loop (suc rounds) w index =
    let rest = heap_up_loop rounds (heap_swap w (parent index) index) (parent index) in
    if index == 0 || leb (key w (parent index)) (key w index) then w else rest

-- The index falls in every round.
unfoldable pub heap_up : Watchdog → ℕ → Watchdog
heap_up w index = heap_up_loop index w index

abbrev pub smallest_child : Watchdog → ℕ → ℕ
smallest_child w index =
    let left = index * 2 + 1 in
    let right = left + 1 in
    if ltb right w.heap_size && ltb (key w right) (key w left) then right else left

unfoldable pub heap_down_loop : ℕ → Watchdog → ℕ → Watchdog
heap_down_loop zero w index = w
heap_down_loop (suc rounds) w index =
    let smallest = smallest_child w index in
    let rest = heap_down_loop rounds (heap_swap w index smallest) smallest in
    if leb w.heap_size (index * 2 + 1) || leb (key w index) (key w smallest) then w else rest

-- The index grows in every round, and stays below the size.
unfoldable pub heap_down : Watchdog → ℕ → Watchdog
heap_down w index = heap_down_loop w.heap_size w index

unfoldable pub heap_remove : Watchdog → ℕ → Watchdog
heap_remove w index =
    let removed = (w.heap index).slot in
    let w1 = record w {
      watchdog_index = update w.watchdog_index removed u64_max;
      heap_size = w.heap_size - 1;
    } in
    let w2 = store_index (store_entry w1 index (w1.heap w1.heap_size)) index in
    let moved = (w2.heap index).slot in
    let w3 = heap_up w2 index in
    if index == w1.heap_size then w1 else heap_down w3 (w3.watchdog_index moved)

abbrev pub entry_of : Request → Entry
entry_of r = record { slot = r.slot; position = r.position; fire_at = r.fire_at }

-- The end of heap_set: store the entry, then move it up or down to its place.
abbrev pub heap_place : Watchdog → ℕ → Request → Watchdog
heap_place w index r =
    let w1 = heap_up (store_entry w index (entry_of r)) index in
    heap_down w1 (w1.watchdog_index r.slot)

-- A slot that the heap has keeps its place; another one is appended, unless the heap is full.
unfoldable pub heap_set : Watchdog → Request → Watchdog
heap_set w r =
    let index = w.watchdog_index r.slot in
    let grown = record w {
      heap_size = w.heap_size + 1;
      watchdog_index = update w.watchdog_index r.slot w.heap_size;
    } in
    if leb w.heap_size index || not ((w.heap index).slot == r.slot)
    then (if leb w.capacity w.heap_size then w else heap_place grown w.heap_size r)
    else heap_place w index r

-- request_pop, by the one thread that takes requests.
unfoldable pub request_pop : Watchdog → Option (Watchdog × Request)
request_pop w =
    let position = w.dequeue_position in
    let index = bit_and position w.mask in
    let request = w.requests index in
    if request.sequence == add64 position 1
    then some (
      record w {
        dequeue_position = add64 position 1;
        requests =
            update w.requests index (record request { sequence = add64 position w.capacity });
      },
      request,
    )
    else none

-- esrb_watchdog_init; `allocated` says whether `calloc`, the mutex and the condition succeeded.
unfoldable pub init : ℕ → Bool → Option Watchdog
init capacity allocated =
    let no_entry : Entry = record { slot = 0; position = 0; fire_at = 0 } in
    if allocated
    then some (record {
      capacity = capacity;
      mask = capacity - 1;
      requests = λ index. record { sequence = index; slot = 0; position = 0; fire_at = 0 };
      enqueue_position = 0;
      dequeue_position = 0;
      heap = λ _. no_entry;
      heap_size = 0;
      watchdog_index = λ _. u64_max;
    })
    else none

-- The loop of esrb_watchdog_arm by a handler that nobody interrupts; `none` means that it would
-- go on, `some (w, false)` that the request ring is full.
unfoldable pub arm_loop : ℕ → Watchdog → ℕ → Slot → ℕ → Option (Watchdog × Bool)
arm_loop zero w index slot position = none
arm_loop (suc rounds) w index slot position =
    let cell = bit_and position w.mask in
    let request = w.requests cell in
    let again = arm_loop rounds w index slot w.enqueue_position in
    let armed = some (
      record w {
        enqueue_position = add64 position 1;
        requests = update w.requests cell (record {
          sequence = add64 position 1;
          slot = index;
          position = slot.position;
          fire_at = slot.fire_at;
        });
      },
      true,
    ) in
    elim (difference request.sequence position) [
      | zero_diff ↦ if w.enqueue_position == position then armed else again
      | negative_diff ↦ some (w, false)
      | positive_diff ↦ again
    ]

unfoldable pub arm : Watchdog → ℕ → Slot → Option (Watchdog × Bool)
unfolding arm_loop
arm w index slot = arm_loop 2 w index slot w.enqueue_position
