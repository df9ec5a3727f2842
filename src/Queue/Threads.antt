-- ===== src/Queue/Threads.antt =====
-- ext/endpoint_security/queue.c, one atomic operation at a time: any number of producers (ES
-- handlers) and consumers, interleaved in any order. A step of a thread is one load, store or
-- compare-and-exchange on the shared ring; memory is sequentially consistent. esrb_queue_depth,
-- which only loads, is left out.
pub mod Invariant
pub mod Moves
pub mod Safety
mod Tests
use endpoint_security.Base.{ℕ, suc, ◌≡◌, ◌≤◌, ◌<◌, bit_and, add64, sub64, difference, update}
use endpoint_security.Base.Words.{zero_diff, negative_diff, positive_diff}

-- What the threads share: the two counters, the depth statistic and, for each slot, its sequence,
-- its position and the message in it. `written` is not in the code: it remembers the message that
-- was published at each position.
pub record Ring : Type 0 where
  pub enqueue_position : ℕ
  pub dequeue_position : ℕ
  pub depth_max : ℕ
  pub sequence : ℕ → ℕ
  pub position : ℕ → ℕ
  pub message : ℕ → ℕ
  pub written : ℕ → ℕ

-- Where a thread stands, with its locals: a position that it has read, or the index of the slot
-- that it was given; in esrb_queue_publish also `depth`, and then `maximum`.
pub data Pc : Type 0 where
  idle : Pc
  enq_load : ℕ → Pc
  enq_cas : ℕ → Pc
  enq_reload : Pc
  enq_store : ℕ → Pc
  filling : ℕ → Pc
  measuring : ℕ → ℕ → Pc
  raising : ℕ → ℕ → ℕ → Pc
  publishing : ℕ → Pc
  deq_load : ℕ → Pc
  deq_cas : ℕ → Pc
  deq_reload : Pc
  holding : ℕ → Pc

pub record System : Type 0 where
  pub ring : Ring
  pub pc : ℕ → Pc

module _ (capacity mask : ℕ) where
  -- One atomic operation of a thread. A weak compare-and-exchange may fail at any time, and leaves
  -- what it read in the thread's local.
  pub data Move : Ring → Pc → Ring → Pc → Type 0 where
    enter_enqueue : {m : Ring} → Move m idle m (enq_load m.enqueue_position)
    enq_free :
        {m : Ring} {p : ℕ}
        → difference (m.sequence (bit_and p mask)) p ≡ zero_diff
        → Move m (enq_load p) m (enq_cas p)
    enq_full :
        {m : Ring} {p : ℕ}
        → difference (m.sequence (bit_and p mask)) p ≡ negative_diff
        → Move m (enq_load p) m idle
    enq_stale :
        {m : Ring} {p : ℕ}
        → difference (m.sequence (bit_and p mask)) p ≡ positive_diff
        → Move m (enq_load p) m enq_reload
    enq_reread : {m : Ring} → Move m enq_reload m (enq_load m.enqueue_position)
    enq_win :
        {m : Ring} {p : ℕ}
        → m.enqueue_position ≡ p
        → Move m (enq_cas p) (record m { enqueue_position = add64 p 1 }) (enq_store p)
    enq_lose : {m : Ring} {p : ℕ} → Move m (enq_cas p) m (enq_load m.enqueue_position)
    store_position :
        {m : Ring} {p : ℕ}
        → Move m
            (enq_store p)
            (record m { position = update m.position (bit_and p mask) p })
            (filling (bit_and p mask))
    fill :
        {m : Ring} {i : ℕ} (v : ℕ)
        → Move m (filling i) (record m { message = update m.message i v }) (filling i)
    measure :
        {m : Ring} {i : ℕ}
        → Move m (filling i) m (measuring i (sub64 (add64 (m.position i) 1) m.dequeue_position))
    load_maximum :
        {m : Ring} {i depth : ℕ} → Move m (measuring i depth) m (raising i depth m.depth_max)
    raise_done :
        {m : Ring} {i depth maximum : ℕ}
        → depth ≤ maximum
        → Move m (raising i depth maximum) m (publishing i)
    raise_win :
        {m : Ring} {i depth maximum : ℕ}
        → maximum < depth
        → m.depth_max ≡ maximum
        → Move m (raising i depth maximum) (record m { depth_max = depth }) (publishing i)
    raise_lose :
        {m : Ring} {i depth maximum : ℕ}
        → maximum < depth
        → Move m (raising i depth maximum) m (raising i depth m.depth_max)
    publish :
        {m : Ring} {i : ℕ}
        → Move m
            (publishing i)
            (record m {
              sequence = update m.sequence i (add64 (m.position i) 1);
              written = update m.written (m.position i) (m.message i);
            })
            idle
    enter_dequeue : {m : Ring} → Move m idle m (deq_load m.dequeue_position)
    deq_ready :
        {m : Ring} {p : ℕ}
        → difference (m.sequence (bit_and p mask)) (add64 p 1) ≡ zero_diff
        → Move m (deq_load p) m (deq_cas p)
    deq_empty :
        {m : Ring} {p : ℕ}
        → difference (m.sequence (bit_and p mask)) (add64 p 1) ≡ negative_diff
        → Move m (deq_load p) m idle
    deq_stale :
        {m : Ring} {p : ℕ}
        → difference (m.sequence (bit_and p mask)) (add64 p 1) ≡ positive_diff
        → Move m (deq_load p) m deq_reload
    deq_reread : {m : Ring} → Move m deq_reload m (deq_load m.dequeue_position)
    deq_win :
        {m : Ring} {p : ℕ}
        → m.dequeue_position ≡ p
        → Move m (deq_cas p) (record m { dequeue_position = add64 p 1 }) (holding (bit_and p mask))
    deq_lose : {m : Ring} {p : ℕ} → Move m (deq_cas p) m (deq_load m.dequeue_position)
    release :
        {m : Ring} {i : ℕ}
        → Move m
            (holding i)
            (record m { sequence = update m.sequence i (add64 (m.position i) capacity) })
            idle

  pub data Step (s : System) : System → Type 0 where
    pick :
        (t : ℕ) {m : Ring} {p : Pc}
        → Move s.ring (s.pc t) m p
        → Step s (record { ring = m; pc = update s.pc t p })

-- The ring that esrb_queue_init leaves, and no thread inside a call.
abbrev pub start_system : System
start_system = record {
  ring = record {
    enqueue_position = 0;
    dequeue_position = 0;
    depth_max = 0;
    sequence = λ i. i;
    position = λ _. 0;
    message = λ _. 0;
    written = λ _. 0;
  };
  pc = λ _. idle;
}

module _ (capacity mask : ℕ) where
  -- Reached in so many steps.
  pub data Reach : ℕ → System → Type 0 where
    start : Reach 0 start_system
    later : {n : ℕ} {s t : System} → Reach n s → Step capacity mask s t → Reach (suc n) t
