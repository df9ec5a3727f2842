-- ===== src/Queue/Answered.antt =====
-- queue.c: a ring in which some slots that were pending have been answered is as good as before.
use endpoint_security.Base.{ℕ, ◌-◌, ◌≡◌, ap, subst⁻¹, bit_and, arith}
use endpoint_security.Slot.{Slot, pending}
use endpoint_security.Queue.{Queue}
use endpoint_security.Queue.Valid.{IsValid}
use endpoint_security.Queue.Calls.{contents, window-same}

-- `u` is `q`, but for slots that were pending in `q` and are not in `u`.
pub record Answered (q u : Queue) : Type 0 where
  pub same : u ≡ record q { slots = u.slots }
  pub kept : (i : ℕ) → u.slots i ≡ record (q.slots i) { answer_state = (u.slots i).answer_state }
  pub only : (i : ℕ) → (u.slots i).answer_state ≡ pending → (q.slots i).answer_state ≡ pending

module _ (q : Queue) (slots : ℕ → Slot)
    (kept : (i : ℕ) → slots i ≡ record (q.slots i) { answer_state = (slots i).answer_state }) where
  with_slots-IsValid : IsValid q → IsValid (record q { slots = slots })
  with_slots-IsValid v = record {
    shape = v.shape;
    ordered = v.ordered;
    fits = v.fits;
    waiting = λ r a b. ground (arith, v.waiting r a b, kept (bit_and r q.mask));
    vacant = λ r a b. ground (arith, v.vacant r a b, kept (bit_and r q.mask));
  }

  with_slots-contents : contents (record q { slots = slots }) ≡ contents q
  with_slots-contents =
      window-same q (record q { slots = slots }) (q.enqueue_position - q.dequeue_position)
        q.dequeue_position (λ r a b. ap (λ (s : Slot). s.message) (kept (bit_and r q.mask)))

pub Answered-IsValid :
    {q u : Queue} → Answered q u → IsValid q → IsValid u × (contents u ≡ contents q)
Answered-IsValid {q} {u} h v =
    subst⁻¹ (λ x. IsValid x × (contents x ≡ contents q)) h.same
      (with_slots-IsValid q u.slots h.kept v, with_slots-contents q u.slots h.kept)

pub Answered-trans : {q u x : Queue} → Answered q u → Answered u x → Answered q x
Answered-trans a b = record {
  same = ground (arith, a.same, b.same);
  kept = λ i. ground (arith, a.kept i, b.kept i);
  only = λ i h. a.only i (b.only i h);
}
