-- ===== src/Client/Dispatch/Drained.antt =====
-- ext/endpoint_security/client.c, client_drain behind its check of the client: what the dispatcher
-- gets, and that it is woken again.
use endpoint_security.Base.{
  ℕ, zero, suc, ◌+◌, ◌-◌, ◌%◌, ◌^◌, ◌≤◌, ◌<◌, ◌≡◌, ◌≢◌, ◌⊎◌, inl, inr, refl, ap, sym, subst⁻¹, ◌∙◌,
  true, false, Option, none, some, List, [], ◌∷◌, ◌++◌, add64, arith,
}
use endpoint_security.Base.Lists.{length, length-pos}
use endpoint_security.Esapi.{write_wakeup}
use endpoint_security.Queue
use endpoint_security.Queue.{Queue, index_of}
use endpoint_security.Queue.Valid.{IsValid}
use endpoint_security.Queue.Calls.{window, contents, dequeue_refines}
use endpoint_security.Client.{Client, notify}
use endpoint_security.Client.Dispatch.{drain_loop, rearm, drain}

-- The messages in slots
abbrev pub messages_of : Queue → List ℕ → List ℕ
messages_of q [] = []
messages_of q (i ∷ slots) = (q.slots i).message ∷ messages_of q slots

-- A result, and one with the property
abbrev pub ReturnsSlots : Option (Client × List ℕ) → (Client → List ℕ → Type 0) → Type 0
ReturnsSlots none P = ⊥
ReturnsSlots (some (d, slots)) P = P d slots

-- After at most `maximum` slots were taken
pub record Dequeued (maximum : ℕ) (c d : Client) (slots : List ℕ) : Type 0 where
  pub ring : IsValid d.queue
  pub few : d.queue.enqueue_position < 2 ^ 61
  pub messages : messages_of c.queue slots ++ contents d.queue ≡ contents c.queue
  pub at_most : length slots ≤ maximum
  pub until_empty : (contents d.queue ≡ []) ⊎ (length slots ≡ maximum)
  pub counted : d.delivered ≡ (c.delivered + length slots) % 2 ^ 64
  pub same_calls : (d.calls ≡ c.calls) × (d.notified ≡ c.notified)

module _ (maximum : ℕ) (c : Client) where
  loop_empty :
      Queue.dequeue c.queue ≡ some (c.queue, none) → drain_loop (suc maximum) c ≡ some (c, [])
  unfolding drain_loop
  loop_empty e = rw (drain_loop, e)

  abbrev one_taken : Client
  one_taken = record c {
    queue = record c.queue { dequeue_position = suc c.queue.dequeue_position };
    delivered = add64 c.delivered 1;
  }

  loop_next :
      (d : Client) (slots : List ℕ)
      → Queue.dequeue c.queue
        ≡ some (one_taken.queue, some (index_of c.queue c.queue.dequeue_position))
      → drain_loop maximum one_taken ≡ some (d, slots)
      → drain_loop (suc maximum) c ≡ some (d, index_of c.queue c.queue.dequeue_position ∷ slots)
  unfolding drain_loop
  loop_next d slots e rest = rw (drain_loop, e, rest)

same_slots :
    (q : Queue) (p : ℕ) (slots : List ℕ)
    → messages_of (record q { dequeue_position = p }) slots ≡ messages_of q slots
same_slots q p [] = refl
same_slots q p (i ∷ slots) = ap (λ xs. (q.slots i).message ∷ xs) (same_slots q p slots)

next-Dequeued :
    (maximum : ℕ) (c : Client)
    → Queue.dequeue c.queue
      ≡ some ((one_taken maximum c).queue, some (index_of c.queue c.queue.dequeue_position))
    → contents c.queue
      ≡ (c.queue.slots (index_of c.queue c.queue.dequeue_position)).message
        ∷ contents (one_taken maximum c).queue
    → (r : Option (Client × List ℕ)) → drain_loop maximum (one_taken maximum c) ≡ r
    → ReturnsSlots r (Dequeued maximum (one_taken maximum c))
    → ReturnsSlots (drain_loop (suc maximum) c) (Dequeued (suc maximum) c)
next-Dequeued maximum c eq first none e h = elim h [ ]
next-Dequeued maximum c eq first (some (d, slots)) e h =
    let index = index_of c.queue c.queue.dequeue_position in
    subst⁻¹ (λ r. ReturnsSlots r (Dequeued (suc maximum) c)) (loop_next maximum c d slots eq e)
      (record {
        ring = h.ring;
        few = h.few;
        messages =
            ap (λ xs. (c.queue.slots index).message ∷ (xs ++ contents d.queue))
              (sym (same_slots c.queue (suc c.queue.dequeue_position) slots))
            ∙ ap (λ xs. (c.queue.slots index).message ∷ xs) h.messages
            ∙ sym first;
        at_most = omega (arith, h.at_most);
        until_empty = elim h.until_empty [
          | inl empty ↦ inl empty
          | inr all ↦ inr (omega (arith, all))
        ];
        counted = omega (arith, h.counted);
        same_calls = h.same_calls;
      })

drain_loop-Dequeued :
    (maximum : ℕ) (c : Client)
    → IsValid c.queue
    → c.queue.enqueue_position < 2 ^ 61
    → c.delivered < 2 ^ 64
    → ReturnsSlots (drain_loop maximum c) (Dequeued maximum c)
unfolding drain_loop
drain_loop-Dequeued zero c v few bounded = record {
  ring = v;
  few = few;
  messages = refl;
  at_most = omega arith;
  until_empty = inr refl;
  counted = omega arith;
  same_calls = (refl, refl);
}
drain_loop-Dequeued (suc maximum) c v few bounded = elim (dequeue_refines v few) [
  | inl (empty, eq) ↦
      subst⁻¹ (λ r. ReturnsSlots r (Dequeued (suc maximum) c)) (loop_empty maximum c eq)
        (record {
          ring = v;
          few = few;
          messages = refl;
          at_most = omega arith;
          until_empty = inl empty;
          counted = omega arith;
          same_calls = (refl, refl);
        })
  | inr (eq, v', first) ↦
      next-Dequeued maximum c eq first (drain_loop maximum (one_taken maximum c)) refl
        (drain_loop-Dequeued maximum (one_taken maximum c) v' few (omega arith))
]

-- What client_drain leaves, and the slots that it hands over
pub record Drained (maximum : ℕ) (c d : Client) (slots : List ℕ) : Type 0 where
  pub ring : IsValid d.queue
  pub messages : messages_of c.queue slots ++ contents d.queue ≡ contents c.queue
  pub at_most : length slots ≤ maximum
  pub until_empty : (contents d.queue ≡ []) ⊎ (length slots ≡ maximum)
  pub counted : d.delivered ≡ (c.delivered + length slots) % 2 ^ 64
  pub asleep : contents d.queue ≡ [] → (d.notified ≡ false) × (d.calls ≡ c.calls)
  pub woken : contents d.queue ≢ [] → (d.notified ≡ true) × (d.calls ≡ write_wakeup ∷ c.calls)

length-window : (q : Queue) (p n : ℕ) → length (window q p n) ≡ n
length-window q p zero = refl
length-window q p (suc n) = omega (arith, length-window q (suc p) n)

pub length-contents : (q : Queue) → length (contents q) ≡ q.enqueue_position - q.dequeue_position
length-contents q = length-window q q.dequeue_position (q.enqueue_position - q.dequeue_position)

module _ (d : Client) (v : IsValid d.queue) (few : d.queue.enqueue_position < 2 ^ 61) where
  depth_lem : Queue.depth d.queue d.queue ≡ length (contents d.queue)
  unfolding Queue.depth
  depth_lem = omega (arith, v.ordered, length-contents d.queue)

  rearm_queue : (rearm d).queue ≡ d.queue
  unfolding rearm notify
  rearm_queue = ground arith

  rearm_delivered : (rearm d).delivered ≡ d.delivered
  unfolding rearm notify
  rearm_delivered = ground arith

  rearm_asleep : contents d.queue ≡ [] → ((rearm d).notified ≡ false) × ((rearm d).calls ≡ d.calls)
  unfolding rearm notify
  rearm_asleep e =
      let empty : Queue.depth d.queue d.queue ≡ 0 = omega (arith, depth_lem, ap length e) in
      ground (arith, empty)

  rearm_woken :
      contents d.queue ≢ []
      → ((rearm d).notified ≡ true) × ((rearm d).calls ≡ write_wakeup ∷ d.calls)
  unfolding rearm notify
  rearm_woken ne =
      let left : 0 < Queue.depth d.queue d.queue =
        omega (arith, depth_lem, length-pos (contents d.queue) ne) in
      ground (arith, left)

rearm-Drained :
    (maximum : ℕ) (c d : Client) (slots : List ℕ)
    → Dequeued maximum c d slots
    → Drained maximum c (rearm d) slots
rearm-Drained maximum c d slots h =
    let same = rearm_queue d h.ring h.few in
    let left : contents (rearm d).queue ≡ contents d.queue = ap contents same in
    record {
      ring = subst⁻¹ IsValid same h.ring;
      messages = ap (λ xs. messages_of c.queue slots ++ xs) left ∙ h.messages;
      at_most = h.at_most;
      until_empty = elim h.until_empty [ inl empty ↦ inl (left ∙ empty) | inr all ↦ inr all ];
      counted = rearm_delivered d h.ring h.few ∙ h.counted;
      asleep = λ e.
          let (n, calls) = rearm_asleep d h.ring h.few (sym left ∙ e) in
          (n, calls ∙ h.same_calls.0);
      woken = λ ne.
          let (n, calls) = rearm_woken d h.ring h.few (λ e. ne (left ∙ e)) in
          (n, calls ∙ ap (λ xs. write_wakeup ∷ xs) h.same_calls.0);
    }

drained_eq :
    (maximum : ℕ) (c d : Client) (slots : List ℕ)
    → drain_loop maximum c ≡ some (d, slots)
    → drain maximum c ≡ some (rearm d, slots)
unfolding drain
drained_eq maximum c d slots e = rw (drain, e)

Drained-path :
    (maximum : ℕ) (c : Client) (r : Option (Client × List ℕ))
    → drain_loop maximum c ≡ r
    → ReturnsSlots r (Dequeued maximum c)
    → ReturnsSlots (drain maximum c) (Drained maximum c)
unfolding drain
Drained-path maximum c none e h = elim h [ ]
Drained-path maximum c (some (d, slots)) e h =
    subst⁻¹ (λ r. ReturnsSlots r (Drained maximum c)) (drained_eq maximum c d slots e)
      (rearm-Drained maximum c d slots h)

pub drain-Drained :
    (maximum : ℕ) (c : Client)
    → IsValid c.queue
    → c.queue.enqueue_position < 2 ^ 61
    → c.delivered < 2 ^ 64
    → ReturnsSlots (drain maximum c) (Drained maximum c)
drain-Drained maximum c v few bounded =
    Drained-path maximum c (drain_loop maximum c) refl (drain_loop-Dequeued maximum c v few bounded)
