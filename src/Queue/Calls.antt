-- ===== src/Queue/Calls.antt =====
-- queue.c by whole calls: a valid ring is a queue of the messages that wait in it.
use mathlib.Core.Path.{ap₂}
use native.Mathlib.Decide.{dec_lt}
use endpoint_security.Base.{
  ℕ, zero, suc, ◌+◌, ◌-◌, ◌^◌, ◌≤◌, ◌<◌, ◌≡◌, ◌⊎◌, inl, inr, refl, ap, ◌∙◌, List, [], ◌∷◌, ◌++◌,
  none, some, false, bit_and, arith, add64,
}
use endpoint_security.Slot.{Slot}
use endpoint_security.Queue.{Queue, index_of, write_slot, enqueue, publish, dequeue, release}
use endpoint_security.Queue.Valid.{
  slot_of, Held, IsValid, claimed, Blocked, pushed, enqueue_lem, dequeue_empty, dequeue_next, room,
  pushed-IsValid, dequeued-IsValid,
}

-- The messages of `n` slots from position `p` on
abbrev pub window : Queue → ℕ → ℕ → List ℕ
window q p zero = []
window q p (suc n) = (slot_of q p).message ∷ window q (suc p) n

-- The messages that wait, the oldest first
abbrev pub contents : Queue → List ℕ
contents q = window q q.dequeue_position (q.enqueue_position - q.dequeue_position)

pub window-same :
    (q u : Queue) (n p : ℕ)
    → ((r : ℕ) → p ≤ r → r < p + n → (slot_of u r).message ≡ (slot_of q r).message)
    → window u p n ≡ window q p n
window-same q u zero p h = refl
window-same q u (suc n) p h =
    ap₂ ◌∷◌ (h p (omega arith) (omega arith))
      (window-same q u n (suc p) (λ r a b. h r (omega arith) (omega arith)))

window_last :
    (q : Queue) (n p e : ℕ)
    → p + n ≡ e
    → window q p (suc n) ≡ window q p n ++ ((slot_of q e).message ∷ [])
window_last q zero p e s = let same : p ≡ e = omega arith in rw same
window_last q (suc n) p e s =
    ap (λ xs. (slot_of q p).message ∷ xs) (window_last q n (suc p) e (omega arith))

-- What esrb_queue_release leaves for the slot of position `p`.
abbrev pub released : Queue → ℕ → Queue
released q p =
    let slot = slot_of q p in
    write_slot q (bit_and p q.mask)
      (record slot { occupied = false; sequence = add64 slot.position q.capacity })

-- The slot of `p` is held since the lap before.
module _ {q : Queue} (v : IsValid q) (few : q.enqueue_position < 2 ^ 61) (p : ℕ)
    (a : q.enqueue_position ≤ p) (b : p < q.dequeue_position + q.capacity) (h : Held q p) where
  released-IsValid : IsValid (released q p)
  released-IsValid = record {
    shape = v.shape;
    ordered = v.ordered;
    fits = v.fits;
    waiting = λ r c d. ground (arith, v.waiting r c d, v.shape.distinct r p);
    vacant = λ r c d.
        ground
          (arith, v.vacant r c d, v.shape.distinct r p, v.shape.distinct p r, h, v.shape.small);
  }

  released-contents : contents (released q p) ≡ contents q
  released-contents =
      window-same q (released q p) (q.enqueue_position - q.dequeue_position) q.dequeue_position
        (λ r c d. ground (arith, v.ordered, v.shape.distinct r p))

-- On a valid ring whose enqueue position is below 2^61: esrb_queue_release on a slot that a
-- consumer holds and nobody reads returns, leaves a valid ring with the same messages waiting, and
-- makes the slot free for its next position.
pub release_lem :
    {q : Queue} (p : ℕ)
    → IsValid q
    → q.enqueue_position < 2 ^ 61
    → q.enqueue_position ≤ p
    → p < q.dequeue_position + q.capacity
    → Held q p
    → (slot_of q p).readers ≡ 0
    → (release q (bit_and p q.mask) ≡ some (released q p))
      × IsValid (released q p)
      × (contents (released q p) ≡ contents q)
      × ((slot_of (released q p) p).sequence ≡ p)
unfolding release
release_lem {q} p v few a b h idle = (
  ground arith,
  released-IsValid v few p a b h,
  released-contents v few p a b h,
  ground (arith, h, v.shape.small, v.fits),
)

module _ {q : Queue} (v : IsValid q) (few : q.enqueue_position < 2 ^ 61)
    (free : (slot_of q q.enqueue_position).sequence ≡ q.enqueue_position) (slot : Slot) where
  pushed_message : (slot_of (pushed q slot) q.enqueue_position).message ≡ slot.message
  unfolding publish
  pushed_message = ground arith

  pushed_others :
      (r : ℕ)
      → q.dequeue_position ≤ r
      → r < q.enqueue_position
      → (slot_of (pushed q slot) r).message ≡ (slot_of q r).message
  unfolding publish
  pushed_others r a b = ground (arith, v.shape.distinct r q.enqueue_position, room v few free)

  pushed-contents : contents (pushed q slot) ≡ contents q ++ (slot.message ∷ [])
  unfolding publish
  pushed-contents =
      let n = q.enqueue_position - q.dequeue_position in
      let grown : suc q.enqueue_position - q.dequeue_position ≡ suc n = omega (arith, v.ordered) in
      ap (window (pushed q slot) q.dequeue_position) grown
      ∙ window_last (pushed q slot) n q.dequeue_position q.enqueue_position
          (omega (arith, v.ordered))
      ∙ ap₂ (λ xs x. xs ++ (x ∷ []))
          (window-same q (pushed q slot) n q.dequeue_position
            (λ r a b. pushed_others r a (omega (arith, v.ordered))))
          pushed_message

-- On a valid ring whose enqueue position is below 2^61: esrb_queue_enqueue always returns, without
-- waiting. Either there is no room (the ring is full, or the next slot is held since the lap
-- before), it returns NULL and nothing changes; or it hands out the next slot, and once the caller
-- has filled and published that slot the ring is valid and its message waits behind all others.
pub enqueue_refines :
    {q : Queue}
    → IsValid q
    → q.enqueue_position < 2 ^ 61
    → (Blocked q × (enqueue q ≡ some (q, none)))
      ⊎ ((enqueue q ≡ some (claimed q, some (index_of q q.enqueue_position)))
          × ((slot : Slot)
              → slot.position ≡ q.enqueue_position
              → IsValid (pushed q slot)
                × (contents (pushed q slot) ≡ contents q ++ (slot.message ∷ []))))
enqueue_refines {q} v few = elim (enqueue_lem v few) [
  | inl blocked ↦ inl blocked
  | inr (free, eq) ↦
      inr (eq, λ slot at. (pushed-IsValid v few slot free at, pushed-contents v few free slot))
]

-- On a valid ring whose enqueue position is below 2^61: esrb_queue_dequeue always returns: NULL
-- exactly when nothing waits, and else the slot of the message that has waited longest.
pub dequeue_refines :
    {q : Queue}
    → IsValid q
    → q.enqueue_position < 2 ^ 61
    → ((contents q ≡ []) × (dequeue q ≡ some (q, none)))
      ⊎ (let u = record q { dequeue_position = suc q.dequeue_position } in
          let index = index_of q q.dequeue_position in
          (dequeue q ≡ some (u, some index))
          × IsValid u
          × (contents q ≡ (q.slots index).message ∷ contents u))
dequeue_refines {q} v few = elim (dec_lt q.dequeue_position q.enqueue_position) [
  | yes l ↦
      let one_more : q.enqueue_position - q.dequeue_position
          ≡ suc (q.enqueue_position - suc q.dequeue_position) =
        omega arith in
      inr
        (dequeue_next v few l, dequeued-IsValid v few l, ap (window q q.dequeue_position) one_more)
  | no empty ↦
      let e : q.dequeue_position ≡ q.enqueue_position = omega (arith, v.ordered) in
      let none_left : q.enqueue_position - q.dequeue_position ≡ 0 = omega arith in
      inl (ap (window q q.dequeue_position) none_left, dequeue_empty v few e)
]
