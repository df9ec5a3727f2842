-- ===== src/Queue/Valid.antt =====
-- queue.c by whole calls: the ring between calls.
use native.Mathlib.Decide.{dec_lt, ℕ_discrete}
use endpoint_security.Base.{
  ℕ, suc, ◌+◌, ◌^◌, ◌≤◌, ◌<◌, ◌≡◌, ◌⊎◌, inl, inr, ap, ◌∙◌, none, some, bit_and, arith, add64,
  difference_self, difference_of_lt,
}
use endpoint_security.Slot.{Slot}
use endpoint_security.Queue.{Queue, index_of, write_slot, enqueue, publish, dequeue}
use endpoint_security.Queue.Shape.{IsShape}

abbrev pub slot_of : Queue → ℕ → Slot
slot_of q p = q.slots (bit_and p q.mask)

-- Published and not taken yet
abbrev pub Waiting : Queue → ℕ → Type 0
Waiting q p = ((slot_of q p).sequence ≡ suc p) × ((slot_of q p).position ≡ p)

-- Still held since the lap before
abbrev pub Held : Queue → ℕ → Type 0
Held q p = ((slot_of q p).sequence + q.capacity ≡ suc p) × ((slot_of q p).position + q.capacity ≡ p)

-- Between calls: the positions from the dequeue to the enqueue position wait, those of the rest of
-- the lap are free or held.
pub record IsValid (q : Queue) : Type 0 where
  pub shape : IsShape q.capacity q.mask
  pub ordered : q.dequeue_position ≤ q.enqueue_position
  pub fits : q.enqueue_position ≤ q.dequeue_position + q.capacity
  pub waiting : (p : ℕ) → q.dequeue_position ≤ p → p < q.enqueue_position → Waiting q p
  pub vacant :
      (p : ℕ)
      → q.enqueue_position ≤ p
      → p < q.dequeue_position + q.capacity
      → ((slot_of q p).sequence ≡ p) ⊎ Held q p

-- What esrb_queue_enqueue leaves when it Claims the slot of the enqueue position.
abbrev pub claimed : Queue → Queue
claimed q =
    let index = index_of q q.enqueue_position in
    record (write_slot q index (record (q.slots index) { position = q.enqueue_position })) {
      enqueue_position = suc q.enqueue_position;
    }

-- No room: the ring is full, or the slot of the next position is held since the lap before.
abbrev pub Blocked : Queue → Type 0
Blocked q = (q.enqueue_position ≡ q.dequeue_position + q.capacity) ⊎ Held q q.enqueue_position

-- A claimed slot after the caller filled it, published.
abbrev pub pushed : Queue → Slot → Queue
pushed q slot =
    publish (write_slot (claimed q) (index_of q q.enqueue_position) slot)
      (index_of q q.enqueue_position)

module _ {q : Queue} (v : IsValid q) (few : q.enqueue_position < 2 ^ 61) where
  open v use {shape, ordered, fits, waiting, vacant}

  full_sequence :
      q.enqueue_position ≡ q.dequeue_position + q.capacity
      → (slot_of q q.enqueue_position).sequence < q.enqueue_position
  full_sequence e =
      let same : (slot_of q q.enqueue_position).sequence ≡ (slot_of q q.dequeue_position).sequence =
        ap (λ i. (q.slots i).sequence)
          (ap (λ p. bit_and p q.mask) e ∙ shape.lap q.dequeue_position) in
      omega (
        arith,
        same,
        shape.two,
        (waiting q.dequeue_position (omega arith) (omega (arith, shape.two))).0,
      )

  Blocked-sequence : Blocked q → (slot_of q q.enqueue_position).sequence < q.enqueue_position
  Blocked-sequence (inl e) = full_sequence e
  Blocked-sequence (inr (h, g)) = omega (arith, shape.two)

  next_sequence : Blocked q ⊎ ((slot_of q q.enqueue_position).sequence ≡ q.enqueue_position)
  next_sequence = elim (dec_lt q.enqueue_position (q.dequeue_position + q.capacity)) [
    | yes room ↦ elim (vacant q.enqueue_position (omega arith) room) [
      | inl free ↦ inr free
      | inr held ↦ inl (inr held)
    ]
    | no full ↦ inl (inl (omega arith))
  ]

  enqueue-Blocked : Blocked q → enqueue q ≡ some (q, none)
  unfolding enqueue
  enqueue-Blocked b = ground (
    arith,
    difference_of_lt (slot_of q q.enqueue_position).sequence q.enqueue_position (Blocked-sequence b)
        (omega arith),
  )

  enqueue_free :
      (slot_of q q.enqueue_position).sequence ≡ q.enqueue_position
      → enqueue q ≡ some (claimed q, some (index_of q q.enqueue_position))
  unfolding enqueue
  enqueue_free e = ground (
    arith,
    difference_self (slot_of q q.enqueue_position).sequence q.enqueue_position (omega arith) e,
  )

  -- esrb_queue_enqueue always returns: NULL exactly when there is no room, and else the slot of the
  -- enqueue position, with that position in it.
  pub enqueue_lem :
      (Blocked q × (enqueue q ≡ some (q, none)))
      ⊎ (((slot_of q q.enqueue_position).sequence ≡ q.enqueue_position)
          × (enqueue q ≡ some (claimed q, some (index_of q q.enqueue_position))))
  enqueue_lem = elim next_sequence [
    | inl blocked ↦ inl (blocked, enqueue-Blocked blocked)
    | inr free ↦ inr (free, enqueue_free free)
  ]

  -- Nothing waits at the dequeue position of an empty ring.
  empty_sequence :
      q.dequeue_position ≡ q.enqueue_position
      → (slot_of q q.dequeue_position).sequence < add64 q.dequeue_position 1
  empty_sequence e = elim (vacant q.dequeue_position (omega arith) (omega (arith, shape.two))) [
    | inl free ↦ omega arith
    | inr held ↦ omega (arith, held, shape.two)
  ]

  pub dequeue_empty : q.dequeue_position ≡ q.enqueue_position → dequeue q ≡ some (q, none)
  unfolding dequeue
  dequeue_empty e = ground (
    arith,
    difference_of_lt (slot_of q q.dequeue_position).sequence (add64 q.dequeue_position 1)
        (empty_sequence e) (omega arith),
  )

  pub dequeue_next :
      q.dequeue_position < q.enqueue_position
      → dequeue q
        ≡ some (
          record q { dequeue_position = suc q.dequeue_position },
          some (index_of q q.dequeue_position),
        )
  unfolding dequeue
  dequeue_next l =
      let next = waiting q.dequeue_position (omega arith) l in
      ground (
        arith,
        difference_self (slot_of q q.dequeue_position).sequence (add64 q.dequeue_position 1)
            (omega (arith, next)) (omega (arith, next)),
      )

  pub room :
      (slot_of q q.enqueue_position).sequence ≡ q.enqueue_position
      → q.enqueue_position < q.dequeue_position + q.capacity
  room free = elim (dec_lt q.enqueue_position (q.dequeue_position + q.capacity)) [
    | yes l ↦ l
    | no full ↦ absurd (omega (arith, full_sequence (omega arith)))
  ]

  pub pushed-IsValid :
      (slot : Slot)
      → (slot_of q q.enqueue_position).sequence ≡ q.enqueue_position
      → slot.position ≡ q.enqueue_position
      → IsValid (pushed q slot)
  unfolding publish
  pushed-IsValid slot free at = record {
    shape = shape;
    ordered = omega arith;
    fits = omega (arith, room free);
    waiting = λ p a b. ground (arith, waiting p a, shape.distinct p q.enqueue_position, room free);
    vacant = λ p a b. ground (arith, vacant p, shape.distinct q.enqueue_position p, room free);
  }

  -- The slot that was just taken is held, for the next lap.
  pub taken_slot :
      q.dequeue_position < q.enqueue_position
      → (p : ℕ) → p ≡ q.dequeue_position + q.capacity
      → Held q p
  taken_slot l p e =
      let same : bit_and p q.mask ≡ bit_and q.dequeue_position q.mask =
        ap (λ r. bit_and r q.mask) e ∙ shape.lap q.dequeue_position in
      let next = waiting q.dequeue_position (omega arith) l in
      (
        omega (arith, next, ap (λ i. (q.slots i).sequence) same),
        omega (arith, next, ap (λ i. (q.slots i).position) same),
      )

  pub dequeued-IsValid :
      q.dequeue_position < q.enqueue_position
      → IsValid (record q { dequeue_position = suc q.dequeue_position })
  dequeued-IsValid l = record {
    shape = shape;
    ordered = l;
    fits = omega arith;
    waiting = λ p a b. waiting p (omega arith) b;
    vacant = λ p a b. elim (ℕ_discrete p (q.dequeue_position + q.capacity)) [
      | yes next ↦ inr (taken_slot l p next)
      | no other ↦ vacant p a (omega arith)
    ];
  }
