-- ===== src/Watchdog/Requests.antt =====
-- The request ring between the handlers and the watchdog thread, by whole calls.
use mathlib.Core.Path.{ap₂}
use native.Mathlib.Decide.{dec_lt, ℕ_discrete}
use endpoint_security.Base.{
  ℕ, zero, suc, ◌+◌, ◌-◌, ◌^◌, ◌≤◌, ◌<◌, ◌≡◌, ◌⊎◌, inl, inr, refl, ap, sym, ◌∙◌, List, [], ◌∷◌,
  ◌++◌, none, some, false, true, bit_and, arith, difference_self, difference_of_lt, update,
}
use endpoint_security.Slot.{Slot}
use endpoint_security.Queue.Shape.{IsShape}
use endpoint_security.Watchdog.{Request, Entry, Watchdog, entry_of, arm, request_pop}

abbrev pub request_of : Watchdog → ℕ → Request
request_of w p = w.requests (bit_and p w.mask)

pub record IsRing (w : Watchdog) : Type 0 where
  pub shape : IsShape w.capacity w.mask
  pub ordered : w.dequeue_position ≤ w.enqueue_position
  pub fits : w.enqueue_position ≤ w.dequeue_position + w.capacity
  pub waiting :
      (p : ℕ) → w.dequeue_position ≤ p → p < w.enqueue_position → (request_of w p).sequence ≡ suc p
  pub vacant :
      (p : ℕ)
      → w.enqueue_position ≤ p
      → p < w.dequeue_position + w.capacity
      → (request_of w p).sequence ≡ p

-- The requests of `n` cells from position `p` on
abbrev pub request_window : Watchdog → ℕ → ℕ → List Entry
request_window w p zero = []
request_window w p (suc n) = entry_of (request_of w p) ∷ request_window w (suc p) n

-- The requests that wait, the oldest first
abbrev pub requested : Watchdog → List Entry
requested w = request_window w w.dequeue_position (w.enqueue_position - w.dequeue_position)

window-same :
    (w u : Watchdog) (n p : ℕ)
    → ((r : ℕ) → p ≤ r → r < p + n → entry_of (request_of u r) ≡ entry_of (request_of w r))
    → request_window u p n ≡ request_window w p n
window-same w u zero p h = refl
window-same w u (suc n) p h =
    ap₂ ◌∷◌ (h p (omega arith) (omega arith))
      (window-same w u n (suc p) (λ r a b. h r (omega arith) (omega arith)))

window_last :
    (w : Watchdog) (n p e : ℕ)
    → p + n ≡ e
    → request_window w p (suc n) ≡ request_window w p n ++ (entry_of (request_of w e) ∷ [])
window_last w zero p e s = let same : p ≡ e = omega arith in rw same
window_last w (suc n) p e s =
    ap (λ xs. entry_of (request_of w p) ∷ xs) (window_last w n (suc p) e (omega arith))

-- What a successful esrb_watchdog_arm leaves.
abbrev pub armed : Watchdog → ℕ → Slot → Watchdog
armed w index slot = record w {
  enqueue_position = suc w.enqueue_position;
  requests = update w.requests (bit_and w.enqueue_position w.mask) (record {
    sequence = suc w.enqueue_position;
    slot = index;
    position = slot.position;
    fire_at = slot.fire_at;
  });
}

abbrev pub popped : Watchdog → Watchdog
popped w =
    let request = request_of w w.dequeue_position in
    record w {
      dequeue_position = suc w.dequeue_position;
      requests =
          update w.requests (bit_and w.dequeue_position w.mask)
            (record request { sequence = w.dequeue_position + w.capacity });
    }

module _ {w : Watchdog} (v : IsRing w) (few : w.enqueue_position < 2 ^ 61) (index : ℕ)
    (slot : Slot) where
  full_sequence :
      w.enqueue_position ≡ w.dequeue_position + w.capacity
      → (request_of w w.enqueue_position).sequence < w.enqueue_position
  full_sequence e =
      let same : (request_of w w.enqueue_position).sequence
          ≡ (request_of w w.dequeue_position).sequence =
        ap (λ i. (w.requests i).sequence)
          (ap (λ p. bit_and p w.mask) e ∙ v.shape.lap w.dequeue_position) in
      omega (
        arith,
        same,
        v.shape.two,
        v.waiting w.dequeue_position (omega arith) (omega (arith, v.shape.two)),
      )

  arm_full :
      w.enqueue_position ≡ w.dequeue_position + w.capacity → arm w index slot ≡ some (w, false)
  unfolding arm
  arm_full e = ground (
    arith,
    difference_of_lt (request_of w w.enqueue_position).sequence w.enqueue_position (full_sequence e)
        (omega arith),
  )

  arm_free :
      w.enqueue_position < w.dequeue_position + w.capacity
      → arm w index slot ≡ some (armed w index slot, true)
  unfolding arm
  arm_free l =
      let free = v.vacant w.enqueue_position (omega arith) l in
      ground (
        arith,
        free,
        difference_self (request_of w w.enqueue_position).sequence w.enqueue_position (omega arith)
            free,
      )

  pub armed-IsRing :
      w.enqueue_position < w.dequeue_position + w.capacity → IsRing (armed w index slot)
  armed-IsRing l = record {
    shape = v.shape;
    ordered = omega (arith, v.ordered);
    fits = omega arith;
    waiting = λ p a b. ground (arith, v.waiting p a, v.shape.distinct p w.enqueue_position);
    vacant = λ p a b. ground (arith, v.vacant p, v.shape.distinct w.enqueue_position p, v.ordered);
  }

  pub armed-requested :
      w.enqueue_position < w.dequeue_position + w.capacity
      → requested (armed w index slot)
        ≡ requested w
          ++ (record { slot = index; position = slot.position; fire_at = slot.fire_at } ∷ [])
  armed-requested l =
      let n = w.enqueue_position - w.dequeue_position in
      let grown : suc w.enqueue_position - w.dequeue_position ≡ suc n = omega (arith, v.ordered) in
      ap (request_window (armed w index slot) w.dequeue_position) grown
      ∙ window_last (armed w index slot) n w.dequeue_position w.enqueue_position
          (omega (arith, v.ordered))
      ∙ ap₂ (λ xs x. xs ++ (x ∷ []))
          (window-same w (armed w index slot) n w.dequeue_position
            (λ r a b. ground (arith, v.ordered, v.shape.distinct r w.enqueue_position)))
          (ground arith)

-- On a valid request ring whose enqueue position is below 2^61: esrb_watchdog_arm always returns:
-- false exactly when the ring is full, and else true, with the slot's deadline waiting behind all
-- other requests.
pub arm_refines :
    {w : Watchdog} (index : ℕ) (slot : Slot)
    → IsRing w
    → w.enqueue_position < 2 ^ 61
    → ((w.enqueue_position ≡ w.dequeue_position + w.capacity)
        × (arm w index slot ≡ some (w, false)))
      ⊎ ((arm w index slot ≡ some (armed w index slot, true))
          × IsRing (armed w index slot)
          × (requested (armed w index slot)
              ≡ requested w
                ++ (record { slot = index; position = slot.position; fire_at = slot.fire_at }
                    ∷ [])))
arm_refines {w} index slot v few =
    elim (dec_lt w.enqueue_position (w.dequeue_position + w.capacity)) [
      | yes l ↦ inr (
        arm_free v few index slot l,
        armed-IsRing v few index slot l,
        armed-requested v few index slot l,
      )
      | no full ↦
          let e : w.enqueue_position ≡ w.dequeue_position + w.capacity = omega (arith, v.fits) in
          inl (e, arm_full v few index slot e)
    ]

module _ {w : Watchdog} (v : IsRing w) (few : w.enqueue_position < 2 ^ 61) where
  pop_empty : w.dequeue_position ≡ w.enqueue_position → request_pop w ≡ none
  unfolding request_pop
  pop_empty e = ground (arith, v.shape.two, v.vacant w.dequeue_position)

  pop_next :
      w.dequeue_position < w.enqueue_position
      → request_pop w ≡ some (popped w, request_of w w.dequeue_position)
  unfolding request_pop
  pop_next l = ground (arith, v.waiting w.dequeue_position)

  freed : (p : ℕ) → p ≡ w.dequeue_position + w.capacity → (request_of (popped w) p).sequence ≡ p
  freed p e =
      let same : bit_and p w.mask ≡ bit_and w.dequeue_position w.mask =
        ap (λ r. bit_and r w.mask) e ∙ v.shape.lap w.dequeue_position in
      ground arith

  popped-IsRing : w.dequeue_position < w.enqueue_position → IsRing (popped w)
  popped-IsRing l = record {
    shape = v.shape;
    ordered = l;
    fits = omega (arith, v.fits);
    waiting = λ p a b. ground (arith, v.waiting p, v.fits, v.shape.distinct w.dequeue_position p);
    vacant = λ p a b. elim (ℕ_discrete p (w.dequeue_position + w.capacity)) [
      | yes next ↦ freed p next
      | no other ↦ ground (arith, v.vacant p, v.shape.distinct w.dequeue_position p)
    ];
  }

  popped-requested :
      w.dequeue_position < w.enqueue_position
      → requested w ≡ entry_of (request_of w w.dequeue_position) ∷ requested (popped w)
  popped-requested l =
      let n = w.enqueue_position - suc w.dequeue_position in
      let one_more : w.enqueue_position - w.dequeue_position ≡ suc n = omega arith in
      ap (request_window w w.dequeue_position) one_more
      ∙ ap (λ xs. entry_of (request_of w w.dequeue_position) ∷ xs)
          (sym (
            window-same w (popped w) n (suc w.dequeue_position)
              (λ r a b. ground (arith, v.fits, v.shape.distinct w.dequeue_position r))))

-- On a valid request ring whose enqueue position is below 2^61: request_pop finds nothing exactly
-- when no request waits, and else the one that has waited longest, whose cell becomes free for the
-- next lap.
pub pop_refines :
    {w : Watchdog}
    → IsRing w
    → w.enqueue_position < 2 ^ 61
    → ((requested w ≡ []) × (request_pop w ≡ none))
      ⊎ ((request_pop w ≡ some (popped w, request_of w w.dequeue_position))
          × IsRing (popped w)
          × (requested w ≡ entry_of (request_of w w.dequeue_position) ∷ requested (popped w)))
pop_refines {w} v few = elim (dec_lt w.dequeue_position w.enqueue_position) [
  | yes l ↦ inr (pop_next v few l, popped-IsRing v few l, popped-requested v few l)
  | no empty ↦
      let e : w.dequeue_position ≡ w.enqueue_position = omega (arith, v.ordered) in
      let none_left : w.enqueue_position - w.dequeue_position ≡ 0 = omega arith in
      inl (ap (request_window w w.dequeue_position) none_left, pop_empty v few e)
]
