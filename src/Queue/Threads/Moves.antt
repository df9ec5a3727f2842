-- ===== src/Queue/Threads/Moves.antt =====
-- Each atomic operation of queue.c keeps each part of the invariant.
use endpoint_security.Base.{
  ℕ, suc, ◌+◌, ◌^◌, ◌≤◌, ◌<◌, ◌≡◌, ◌≢◌, ap, some, bit_and, arith, add64, difference,
  difference-zero,
}
use endpoint_security.Base.Words.{zero_diff}
use endpoint_security.Queue.Threads.{
  Ring, Pc, Move, enter_enqueue, enq_free, enq_win, store_position, fill, measure, load_maximum,
  raise_done, raise_win, raise_lose, publish, deq_ready, deq_win, release,
}
use endpoint_security.Queue.Shape.{IsShape}
use endpoint_security.Queue.Threads.Invariant.{owned, Fact, IsSound}

module _ {capacity mask n : ℕ} (sh : IsShape capacity mask) (few : n < 2 ^ 61) {m : Ring}
    (s : IsSound capacity mask n m) where
  position_small : m.enqueue_position < 2 ^ 61
  position_small = omega (arith, s.enqueued)

  sequence_small : (p : ℕ) → m.sequence (bit_and p mask) < 2 ^ 62
  sequence_small p = omega (arith, s.enqueued, s.ordered, s.bounded p, sh.small)

  -- The wrapped sum is the sum.
  pub no_wrap : (p : ℕ) → p ≤ m.enqueue_position → add64 p 1 ≡ suc p
  no_wrap p h = omega (arith, position_small)

  claimable :
      (p : ℕ)
      → p ≤ m.enqueue_position
      → difference (m.sequence (bit_and p mask)) p ≡ zero_diff
      → m.sequence (bit_and p mask) ≡ p
  claimable p h e = difference-zero _ p (sequence_small p) (omega (arith, position_small)) e

  ready :
      (p : ℕ)
      → p ≤ m.enqueue_position
      → difference (m.sequence (bit_and p mask)) (add64 p 1) ≡ zero_diff
      → m.sequence (bit_and p mask) ≡ suc p
  ready p h e =
      difference-zero _ (suc p) (sequence_small p) (omega (arith, position_small))
        (rw (no_wrap p h) at e)

  -- A slot cannot be free for one position and published for another.
  not_both :
      (p q : ℕ)
      → bit_and p mask ≡ bit_and q mask
      → m.sequence (bit_and p mask) ≡ p
      → m.sequence (bit_and q mask) ≢ suc q
  not_both p q e f g = sh.apart q (omega (arith, ap m.sequence e, ap (λ x. bit_and x mask) step))
    where
      step : suc q ≡ p
      step = omega (arith, ap m.sequence e)

  -- What a thread knows after its own step.
  pub Move-Fact :
      {m' : Ring} {p p' : Pc}
      → Move capacity mask m p m' p'
      → Fact capacity mask m p
      → Fact capacity mask m' p'
  Move-Fact enter_enqueue f = omega arith
  Move-Fact (enq_free {p = p} e) f = (f, λ _. claimable p f e)
  Move-Fact (enq_win {p = p} e) f = ground (arith, f, position_small, s.ordered, no_wrap p f.0)
  Move-Fact (store_position {p = p}) f = ground (arith, f)
  Move-Fact (fill v) f = f
  Move-Fact (measure {i = i}) f = ground (arith, f, s.fits, position_small)
  Move-Fact load_maximum f = (f.0, f.2)
  Move-Fact (raise_done l) f = f.0
  Move-Fact (raise_win l e) f = f.0
  Move-Fact (raise_lose l) f = f
  Move-Fact (deq_ready {p = p} e) f = (f, λ _. ready p (omega (arith, s.ordered)) e)
  Move-Fact (deq_win {p = p} e) f = ground (arith, f, s.published p, s.ordered, no_wrap p)
  Move-Fact mv f = ground arith

  -- What another thread knows stays true: the two do not own the same slot.
  pub Move-frame :
      {m' : Ring} {p p' : Pc}
      → Move capacity mask m p m' p'
      → Fact capacity mask m p
      → (q : Pc) → ((i : ℕ) → owned capacity mask p ≡ some i → owned capacity mask q ≡ some i → ⊥)
      → Fact capacity mask m q
      → Fact capacity mask m' q
  Move-frame enter_enqueue f q apart g = g
  Move-frame (enq_win {p = p} e) f (Pc.enq_load r) apart g = ground (arith, position_small)
  Move-frame (enq_win {p = p} e) f q apart g = ground (arith, position_small)
  Move-frame (store_position {p = p}) f (Pc.filling i) apart g = ground (arith, apart i)
  Move-frame (store_position {p = p}) f (Pc.measuring i depth) apart g = ground (arith, apart i)
  Move-frame (store_position {p = p}) f (Pc.raising i depth maximum) apart g =
      ground (arith, apart i)
  Move-frame (store_position {p = p}) f (Pc.publishing i) apart g = ground (arith, apart i)
  Move-frame (store_position {p = p}) f (Pc.holding i) apart g = ground (arith, apart i)
  Move-frame (store_position {p = p}) f q apart g = g
  Move-frame (publish {i = i}) f (Pc.enq_cas r) apart g = ground (arith)
  Move-frame (publish {i = i}) f (Pc.enq_store r) apart g = ground (arith, apart i)
  Move-frame (publish {i = i}) f (Pc.filling j) apart g = ground (arith, apart i)
  Move-frame (publish {i = i}) f (Pc.measuring j depth) apart g = ground (arith, apart i)
  Move-frame (publish {i = i}) f (Pc.raising j depth maximum) apart g = ground (arith, apart i)
  Move-frame (publish {i = i}) f (Pc.publishing j) apart g = ground (arith, apart i)
  Move-frame (publish {i = i}) f (Pc.deq_cas r) apart g = ground (arith, not_both (m.position i) r)
  Move-frame (publish {i = i}) f (Pc.holding j) apart g = ground (arith, apart i)
  Move-frame (publish {i = i}) f q apart g = g
  Move-frame (deq_win {p = p} e) f (Pc.deq_load r) apart g =
      ground (arith, position_small, s.ordered)
  Move-frame (deq_win {p = p} e) f (Pc.deq_cas r) apart g =
      ground (arith, position_small, s.ordered)
  Move-frame (deq_win {p = p} e) f (Pc.enq_store r) apart g =
      ground (arith, position_small, s.ordered)
  Move-frame (deq_win {p = p} e) f (Pc.filling r) apart g =
      ground (arith, position_small, s.ordered)
  Move-frame (deq_win {p = p} e) f (Pc.measuring r depth) apart g =
      ground (arith, position_small, s.ordered)
  Move-frame (deq_win {p = p} e) f (Pc.raising r depth maximum) apart g =
      ground (arith, position_small, s.ordered)
  Move-frame (deq_win {p = p} e) f (Pc.publishing r) apart g =
      ground (arith, position_small, s.ordered)
  Move-frame (deq_win {p = p} e) f (Pc.holding r) apart g =
      ground (arith, position_small, s.ordered)
  Move-frame (deq_win {p = p} e) f q apart g = g
  Move-frame (release {i = i}) f (Pc.enq_cas r) apart g = ground (arith, not_both r (m.position i))
  Move-frame (release {i = i}) f (Pc.enq_store r) apart g = ground (arith, apart i)
  Move-frame (release {i = i}) f (Pc.filling j) apart g = ground (arith, apart i)
  Move-frame (release {i = i}) f (Pc.measuring j depth) apart g = ground (arith, apart i)
  Move-frame (release {i = i}) f (Pc.raising j depth maximum) apart g = ground (arith, apart i)
  Move-frame (release {i = i}) f (Pc.publishing j) apart g = ground (arith, apart i)
  Move-frame (release {i = i}) f (Pc.deq_cas r) apart g = ground (arith)
  Move-frame (release {i = i}) f (Pc.holding j) apart g = ground (arith, apart i)
  Move-frame (release {i = i}) f q apart g = g
  Move-frame mv f q apart g = g

  -- A step that gives a thread a slot gives it one that it had or one that nobody had.
  pub Move-owned :
      {m' : Ring} {p p' : Pc}
      → Move capacity mask m p m' p'
      → Fact capacity mask m p
      → (i : ℕ) → owned capacity mask p' ≡ some i
      → (q : Pc) → Fact capacity mask m q
      → owned capacity mask q ≡ some i
      → owned capacity mask p ≡ some i
  Move-owned enter_enqueue f i e q g h = ground arith
  Move-owned (enq_win {p = p} e) f i o (Pc.enq_store r) g h = ground (arith)
  Move-owned (enq_win {p = p} e) f i o (Pc.filling r) g h = ground (arith)
  Move-owned (enq_win {p = p} e) f i o (Pc.measuring r depth) g h = ground (arith)
  Move-owned (enq_win {p = p} e) f i o (Pc.raising r depth maximum) g h = ground (arith)
  Move-owned (enq_win {p = p} e) f i o (Pc.publishing r) g h = ground (arith)
  Move-owned (enq_win {p = p} e) f i o (Pc.holding r) g h =
      ground (arith, not_both p (m.position r))
  Move-owned (enq_win {p = p} e) f i o q g h = ground arith
  Move-owned (deq_win {p = p} e) f i o (Pc.enq_store r) g h = ground (arith, not_both r p)
  Move-owned (deq_win {p = p} e) f i o (Pc.filling r) g h =
      ground (arith, not_both (m.position r) p)
  Move-owned (deq_win {p = p} e) f i o (Pc.measuring r depth) g h =
      ground (arith, not_both (m.position r) p)
  Move-owned (deq_win {p = p} e) f i o (Pc.raising r depth maximum) g h =
      ground (arith, not_both (m.position r) p)
  Move-owned (deq_win {p = p} e) f i o (Pc.publishing r) g h =
      ground (arith, not_both (m.position r) p)
  Move-owned (deq_win {p = p} e) f i o (Pc.holding r) g h = ground (arith)
  Move-owned (deq_win {p = p} e) f i o q g h = ground arith
  Move-owned mv f i e q g h = ground arith

  -- The sequence that a release stores is free for the next lap only.
  next_lap :
      (i q : ℕ)
      → i ≡ bit_and (m.position i) mask
      → bit_and q mask ≡ i
      → m.position i + capacity ≢ suc q
  next_lap i q e g h =
      sh.apart q (omega (arith, g, e, sh.lap (m.position i), ap (λ x. bit_and x mask) h))

  Move-enqueued :
      {m' : Ring} {p p' : Pc}
      → Move capacity mask m p m' p'
      → Fact capacity mask m p
      → m'.enqueue_position ≤ suc n
  Move-enqueued enter_enqueue f = omega (arith, s.enqueued)
  Move-enqueued (enq_win {p = p} e) f = omega (arith, s.enqueued, no_wrap p)
  Move-enqueued mv f = omega (arith, s.enqueued)

  Move-ordered :
      {m' : Ring} {p p' : Pc}
      → Move capacity mask m p m' p'
      → Fact capacity mask m p
      → m'.dequeue_position ≤ m'.enqueue_position
  Move-ordered enter_enqueue f = s.ordered
  Move-ordered (enq_win {p = p} e) f = omega (arith, s.ordered, position_small)
  Move-ordered (deq_win {p = p} e) f = ground (arith, s.ordered, position_small, s.published p)
  Move-ordered mv f = s.ordered

  Move-fits :
      {m' : Ring} {p p' : Pc}
      → Move capacity mask m p m' p'
      → Fact capacity mask m p
      → m'.enqueue_position ≤ m'.dequeue_position + capacity
  Move-fits enter_enqueue f = s.fits
  Move-fits (enq_win {p = p} e) f = ground (arith, s.fits, s.free p, position_small)
  Move-fits (deq_win {p = p} e) f = omega (arith, s.ordered, s.fits, position_small)
  Move-fits mv f = s.fits

  Move-deepest :
      {m' : Ring} {p p' : Pc}
      → Move capacity mask m p m' p'
      → Fact capacity mask m p
      → m'.depth_max ≤ capacity
  Move-deepest enter_enqueue f = s.deepest
  Move-deepest (raise_win {i = i} l e) f = f.1
  Move-deepest mv f = s.deepest

  Move-bounded :
      {m' : Ring} {p p' : Pc}
      → Move capacity mask m p m' p'
      → Fact capacity mask m p
      → (q : ℕ) → m'.sequence (bit_and q mask) ≤ m'.dequeue_position + capacity
  Move-bounded enter_enqueue f q = s.bounded q
  Move-bounded (publish {i = i}) f q = ground (arith, s.bounded q, s.fits, position_small)
  Move-bounded (deq_win {p = p} e) f q = omega (arith, s.ordered, s.bounded q, position_small)
  Move-bounded (release {i = i}) f q =
      ground (arith, s.bounded q, s.ordered, position_small, sh.small)
  Move-bounded mv f q = s.bounded q

  Move-free :
      {m' : Ring} {p p' : Pc}
      → Move capacity mask m p m' p'
      → Fact capacity mask m p
      → (q : ℕ) → m'.sequence (bit_and q mask) ≡ q
      → q < m'.dequeue_position + capacity
  Move-free enter_enqueue f q = s.free q
  Move-free (publish {i = i}) f q =
      λ e. ground (arith, s.free q, position_small, sh.apart (m.position i), e)
  Move-free (deq_win {p = p} e) f q = λ g. omega (arith, s.ordered, s.free q g, position_small)
  Move-free (release {i = i}) f q =
      λ e. ground (arith, e, s.free q, s.ordered, position_small, sh.small)
  Move-free mv f q = s.free q

  Move-published :
      {m' : Ring} {p p' : Pc}
      → Move capacity mask m p m' p'
      → Fact capacity mask m p
      → (q : ℕ) → m'.sequence (bit_and q mask) ≡ suc q
      → (q < m'.enqueue_position)
        × (m'.position (bit_and q mask) ≡ q)
        × (m'.message (bit_and q mask) ≡ m'.written q)
  Move-published enter_enqueue f q = s.published q
  Move-published (enq_win {p = p} e) f q = λ g. ground (arith, position_small, s.published q g)
  Move-published (store_position {p = p}) f q = λ g. ground (arith, s.published q g, not_both p q)
  Move-published (fill {i = i} v) f q =
      λ g. ground (arith, s.published q g, not_both (m.position i) q)
  Move-published (publish {i = i}) f q = λ g. ground (arith, g, s.published q, position_small)
  Move-published (release {i = i}) f q =
      λ g. ground (arith, g, s.published q, next_lap i q, sh.small, s.ordered, position_small)
  Move-published mv f q = s.published q

  pub Move-IsSound :
      {m' : Ring} {p p' : Pc}
      → Move capacity mask m p m' p'
      → Fact capacity mask m p
      → IsSound capacity mask (suc n) m'
  Move-IsSound mv f = record {
    enqueued = Move-enqueued mv f;
    ordered = Move-ordered mv f;
    fits = Move-fits mv f;
    deepest = Move-deepest mv f;
    bounded = Move-bounded mv f;
    free = Move-free mv f;
    published = Move-published mv f;
  }
