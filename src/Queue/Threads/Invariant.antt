-- ===== src/Queue/Threads/Invariant.antt =====
-- What every reachable state of the interleaved ring satisfies.
use endpoint_security.Base.{ℕ, suc, ◌+◌, ◌≤◌, ◌<◌, ◌≡◌, Option, none, some, bit_and}
use endpoint_security.Queue.Threads.{
  Ring, Pc, enq_load, enq_cas, enq_store, filling, measuring, raising, publishing, deq_load,
  deq_cas, holding,
}

module _ (capacity mask : ℕ) where
  -- The slot that a thread may write.
  abbrev pub owned : Pc → Option ℕ
  owned (enq_store p) = some (bit_and p mask)
  owned (filling i) = some i
  owned (measuring i depth) = some i
  owned (raising i depth maximum) = some i
  owned (publishing i) = some i
  owned (holding i) = some i
  owned _ = none

  -- A producer's slot `i`: it took position `p`, and has not published it.
  abbrev pub Produces : Ring → ℕ → ℕ → Type 0
  Produces m i p =
      (i ≡ bit_and p mask)
      × (p < m.enqueue_position)
      × (m.dequeue_position ≤ p)
      × (m.sequence i ≡ p)

  -- What the locals of a thread say about the ring.
  abbrev pub Fact : Ring → Pc → Type 0
  Fact m (enq_load p) = p ≤ m.enqueue_position
  Fact m (enq_cas p) =
      (p ≤ m.enqueue_position) × (p ≡ m.enqueue_position → m.sequence (bit_and p mask) ≡ p)
  Fact m (enq_store p) = Produces m (bit_and p mask) p
  Fact m (filling i) = Produces m i (m.position i)
  Fact m (measuring i depth) = Produces m i (m.position i) × (0 < depth) × (depth ≤ capacity)
  Fact m (raising i depth maximum) = Produces m i (m.position i) × (depth ≤ capacity)
  Fact m (publishing i) = Produces m i (m.position i)
  Fact m (deq_load p) = p ≤ m.dequeue_position
  Fact m (deq_cas p) =
      (p ≤ m.dequeue_position) × (p ≡ m.dequeue_position → m.sequence (bit_and p mask) ≡ suc p)
  Fact m (holding i) =
      (i ≡ bit_and (m.position i) mask)
      × (m.position i < m.dequeue_position)
      × (m.sequence i ≡ suc (m.position i))
  Fact m _ = Unit

  -- After `n` steps.
  pub record IsSound (n : ℕ) (m : Ring) : Type 0 where
    pub enqueued : m.enqueue_position ≤ n
    pub ordered : m.dequeue_position ≤ m.enqueue_position
    pub fits : m.enqueue_position ≤ m.dequeue_position + capacity
    pub deepest : m.depth_max ≤ capacity
    -- No sequence is ahead of the ring, and a free slot is free for a position within the ring.
    pub bounded : (p : ℕ) → m.sequence (bit_and p mask) ≤ m.dequeue_position + capacity
    pub free : (p : ℕ) → m.sequence (bit_and p mask) ≡ p → p < m.dequeue_position + capacity
    -- A published slot holds the message of its position.
    pub published :
        (p : ℕ)
        → m.sequence (bit_and p mask) ≡ suc p
        → (p < m.enqueue_position)
          × (m.position (bit_and p mask) ≡ p)
          × (m.message (bit_and p mask) ≡ m.written p)

  pub record Inv (n : ℕ) (m : Ring) (pc : ℕ → Pc) : Type 0 where
    pub sound : IsSound n m
    pub unique : (a b i : ℕ) → owned (pc a) ≡ some i → owned (pc b) ≡ some i → a ≡ b
    pub facts : (t : ℕ) → Fact m (pc t)
