-- ===== src/Queue/Threads/Safety.antt =====
-- What holds of the ring in every reachable state: who may touch a slot, how deep the ring gets,
-- and that messages come out once each and in the order of their positions.
use mathlib.Core.Path.{ap₂}
use native.Mathlib.Decide.{ℕ_discrete}
use endpoint_security.Base.{
  ℕ, zero, suc, ◌+◌, ◌^◌, ◌≤◌, ◌<◌, ◌≡◌, refl, ap, sym, subst, ◌∙◌, List, [], ◌∷◌, ◌++◌, some, true,
  bit_and, arith, update,
}
use endpoint_security.Queue.{Queue, init}
use endpoint_security.Queue.Threads.{
  Ring, Pc, measuring, holding, Move, enter_enqueue, publish, deq_win, System, pick, start_system,
  Reach, start, later,
}
use endpoint_security.Queue.Shape.{IsShape, init-IsShape}
use endpoint_security.Queue.Threads.Invariant.{owned, Fact, IsSound, Inv}
use endpoint_security.Queue.Threads.Moves.{no_wrap, Move-Fact, Move-frame, Move-owned, Move-IsSound}

-- The messages published at the positions below `n`, in order.
pub log : (ℕ → ℕ) → ℕ → List ℕ
log written zero = []
log written (suc n) = log written n ++ (written n ∷ [])

log-update : (w : ℕ → ℕ) (p v n : ℕ) → n ≤ p → log (update w p v) n ≡ log w n
unfolding log
log-update w p v zero h = refl
log-update w p v (suc n) h = ground (arith, log-update w p v n)

module _ {capacity mask : ℕ} (sh : IsShape capacity mask) where
  start-Inv : Inv capacity mask 0 start_system.ring start_system.pc
  start-Inv = record {
    sound = record {
      enqueued = omega arith;
      ordered = omega arith;
      fits = omega arith;
      deepest = omega arith;
      bounded = λ p. omega (arith, sh.inside p);
      free = λ p e. omega (arith, sh.inside p);
      published = λ p e. absurd (omega (arith, sh.least p));
    };
    unique = λ a b i e g. ground arith;
    facts = λ t. tt;
  }

  -- Thread `t` moves; what the others own and know is untouched.
  module _ {n : ℕ} (few : n < 2 ^ 61) {m m' : Ring} {pc : ℕ → Pc} {p' : Pc}
      (inv : Inv capacity mask n m pc) (t : ℕ) (mv : Move capacity mask m (pc t) m' p') where
    facts_after : (u : ℕ) → Fact capacity mask m' (update pc t p' u)
    facts_after u = elim (ℕ_discrete t u) [
      | yes same ↦ ground (arith, Move-Fact sh few inv.sound mv (inv.facts t))
      | no other ↦ ground (
        arith,
        Move-frame sh few inv.sound mv (inv.facts t) (pc u) (λ i e g. other (inv.unique t u i e g))
            (inv.facts u),
      )
    ]

    owned_before :
        (u : ℕ) (i : ℕ)
        → owned capacity mask p' ≡ some i
        → owned capacity mask (pc u) ≡ some i
        → t ≡ u
    owned_before u i e g =
        inv.unique t u i (Move-owned sh few inv.sound mv (inv.facts t) i e (pc u) (inv.facts u) g) g

    unique_after :
        (a b i : ℕ)
        → owned capacity mask (update pc t p' a) ≡ some i
        → owned capacity mask (update pc t p' b) ≡ some i
        → a ≡ b
    unique_after a b i e g = ground (arith, owned_before a i, owned_before b i, inv.unique a b i)

    Move-Inv : Inv capacity mask (suc n) m' (update pc t p')
    Move-Inv = record {
      sound = Move-IsSound sh few inv.sound mv (inv.facts t);
      unique = unique_after;
      facts = facts_after;
    }

  -- Every state that is reached in fewer than 2^61 steps satisfies the invariant.
  pub Reach-Inv :
      {n : ℕ} {s : System} → Reach capacity mask n s → n < 2 ^ 61 → Inv capacity mask n s.ring s.pc
  Reach-Inv start few = start-Inv
  Reach-Inv (later r (pick t mv)) few = Move-Inv (omega arith) (Reach-Inv r (omega arith)) t mv

  -- The messages that the winners of the dequeue race found, in the order of winning.
  taken_by : {m m' : Ring} {p p' : Pc} → Move capacity mask m p m' p' → List ℕ → List ℕ
  taken_by enter_enqueue xs = xs
  taken_by (deq_win {m = m} {p = p} e) xs = xs ++ (m.message (bit_and p mask) ∷ [])
  taken_by mv xs = xs

  pub delivered : {n : ℕ} {s : System} → Reach capacity mask n s → List ℕ
  delivered start = []
  delivered (later r (pick t mv)) = taken_by mv (delivered r)

  Move-log :
      {n : ℕ}
      → n < 2 ^ 61
      → {m m' : Ring} {p p' : Pc} → IsSound capacity mask n m
      → (mv : Move capacity mask m p m' p') → Fact capacity mask m p
      → (xs : List ℕ) → xs ≡ log m.written m.dequeue_position
      → taken_by mv xs ≡ log m'.written m'.dequeue_position
  unfolding taken_by log
  Move-log few s enter_enqueue f xs e = e
  Move-log few {m = m} s (publish {i = i}) f xs e =
      e ∙ sym (log-update m.written (m.position i) (m.message i) m.dequeue_position f.2)
  Move-log few {m = m} s (deq_win {p = p} g) f xs e =
      let (below, at_p, same) = s.published p (f.1 (sym g)) in
      rw (no_wrap sh few s p (omega arith))
        (ap₂ (λ ys x. ys ++ (x ∷ [])) (e ∙ ap (log m.written) g) same)
  Move-log few s mv f xs e = e

  delivered_lem :
      {n : ℕ} {s : System} (r : Reach capacity mask n s)
      → n < 2 ^ 61
      → delivered r ≡ log s.ring.written s.ring.dequeue_position
  unfolding delivered log
  delivered_lem start few = refl
  delivered_lem (later r (pick t mv)) few =
      let inv = Reach-Inv r (omega arith) in
      Move-log (omega arith) inv.sound mv (inv.facts t) (delivered r)
        (delivered_lem r (omega arith))

-- A ring that esrb_queue_init made, used by any threads in any order for fewer than 2^61 atomic
-- operations.
module _ (c : ℕ) {q : Queue} (made : init c true ≡ some q) (small : c ≤ 2 ^ 61) {n : ℕ} {s : System}
    (r : Reach q.capacity q.mask n s) (few : n < 2 ^ 61) where
  -- Two threads never own the same slot: a slot between a claim and its publication, or between a
  -- dequeue and its release, is one thread's. This holds for a ring that esrb_queue_init made with
  -- a capacity of at most 2^61, after any fewer than 2^61 steps.
  pub exclusive_slots :
      (a b i : ℕ)
      → owned q.capacity q.mask (s.pc a) ≡ some i
      → owned q.capacity q.mask (s.pc b) ≡ some i
      → a ≡ b
  exclusive_slots = (Reach-Inv (init-IsShape c true made small) r few).unique

  -- At every moment the ring holds at most its capacity, and the dequeue position is not past the
  -- enqueue position; the depth that a producer in esrb_queue_publish computes from its position
  -- and a later load of the dequeue position does not wrap: it is at least 1 and at most the
  -- capacity; and the recorded maximum is at most the capacity. This holds for a ring that
  -- esrb_queue_init made with a capacity of at most 2^61, after any fewer than 2^61 steps.
  pub depth_bounded :
      (s.ring.enqueue_position ≤ s.ring.dequeue_position + q.capacity)
      × (s.ring.dequeue_position ≤ s.ring.enqueue_position)
      × ((t i depth : ℕ) → s.pc t ≡ measuring i depth → (0 < depth) × (depth ≤ q.capacity))
      × (s.ring.depth_max ≤ q.capacity)
  depth_bounded =
      let inv = Reach-Inv (init-IsShape c true made small) r few in
      (
        inv.sound.fits,
        inv.sound.ordered,
        λ t i depth e. let f = subst (Fact q.capacity q.mask s.ring) e (inv.facts t) in (f.1, f.2),
        inv.sound.deepest,
      )

  -- The messages that consumers took, in the order in which they took them, are the messages
  -- published at the positions 0, 1, 2, …, each once and none left out. This holds for a ring that
  -- esrb_queue_init made with a capacity of at most 2^61, after any fewer than 2^61 steps.
  pub first_in_first_out :
      delivered (init-IsShape c true made small) r ≡ log s.ring.written s.ring.dequeue_position
  first_in_first_out = delivered_lem (init-IsShape c true made small) r few

  -- The message in a slot that a consumer holds is the one published at the slot's position,
  -- whatever producers have done since. This holds for a ring that esrb_queue_init made with a
  -- capacity of at most 2^61, after any fewer than 2^61 steps.
  pub held_message :
      (t i : ℕ)
      → s.pc t ≡ holding i
      → (i ≡ bit_and (s.ring.position i) q.mask)
        × (s.ring.position i < s.ring.dequeue_position)
        × (s.ring.message i ≡ s.ring.written (s.ring.position i))
  held_message t i e =
      let inv = Reach-Inv (init-IsShape c true made small) r few in
      ground (arith, inv.facts t, inv.sound.published (s.ring.position i))
