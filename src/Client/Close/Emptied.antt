-- ===== src/Client/Close/Emptied.antt =====
-- ext/endpoint_security/client.c, client_drain_and_release: every waiting message goes back to the
-- framework.
use endpoint_security.Base.{
  ℕ, suc, ◌+◌, ◌^◌, ◌≤◌, ◌<◌, ◌≡◌, inl, inr, refl, ap, sym, subst, subst⁻¹, ◌∙◌, some, List, [],
  ◌∷◌, bit_and, arith,
}
use endpoint_security.Slot.{Slot}
use endpoint_security.Esapi.{Call, release_message, Framework}
use endpoint_security.Queue
use endpoint_security.Queue.{Queue, index_of}
use endpoint_security.Queue.Answered.{Answered-IsValid}
use endpoint_security.Queue.Valid.{IsValid, Held, taken_slot}
use endpoint_security.Queue.Calls.{contents, released, release_lem}
use endpoint_security.Client.{Client, called, answer_slot}
use endpoint_security.Client.Answer.{Asked}
use endpoint_security.Client.Settles.{Settles, Grown, answer-Settles}
use endpoint_security.Client.Close.{drain_and_release}
use endpoint_security.Client.Close.Swept.{Settled, Settled-stays}

-- Nobody reads a slot.
abbrev pub Unread : Queue → Type 0
Unread q = (i : ℕ) → (q.slots i).readers ≡ 0

-- Every message went back to the framework.
abbrev pub Released : List ℕ → List Call → Type 0
Released [] calls = Unit
Released (m ∷ messages) calls = Asked (release_message m) calls × Released messages calls

-- What the rounds keep
pub record Keeps (c d : Client) : Type 0 where
  pub closed : d.closed ≡ c.closed
  pub client : d.client ≡ c.client
  pub thread : d.watchdog_thread_started ≡ c.watchdog_thread_started
  pub grown : Grown c.calls d.calls
  pub settled : (i : ℕ) → Settled c.queue i → Settled d.queue i

module _ (es : Framework) (c : Client) (v : IsValid c.queue)
    (few : c.queue.enqueue_position < 2 ^ 61) (unread : Unread c.queue)
    (some_left : c.queue.dequeue_position < c.queue.enqueue_position)
    (valid : IsValid (record c.queue { dequeue_position = suc c.queue.dequeue_position })) where
  abbrev index : ℕ
  index = index_of c.queue c.queue.dequeue_position

  abbrev next : ℕ
  next = c.queue.dequeue_position + c.queue.capacity

  abbrev taken : Client
  taken = record c { queue = record c.queue { dequeue_position = suc c.queue.dequeue_position } }

  abbrev settled : Client
  settled = answer_slot es taken index

  abbrev pub after : Client
  after = record (called settled (release_message (settled.queue.slots index).message)) {
    queue = released settled.queue next;
  }

  settles : Settles es taken settled
  settles = answer-Settles es taken index

  place : bit_and next settled.queue.mask ≡ index
  place = ap (λ u. bit_and next u.mask) settles.queue.same ∙ v.shape.lap c.queue.dequeue_position

  held : Held settled.queue next
  held =
      let (s, p) = taken_slot v few some_left next refl in
      let kept = settles.queue.kept (bit_and next settled.queue.mask) in
      ground (arith, s, p, kept, settles.queue.same)

  pub freed :
      (Queue.release settled.queue index ≡ some (released settled.queue next))
      × IsValid (released settled.queue next)
      × (contents (released settled.queue next) ≡ contents settled.queue)
  freed =
      let same = settles.queue.same in
      let back =
        release_lem next (Answered-IsValid settles.queue valid).0
          (subst⁻¹ (λ u. u.enqueue_position < 2 ^ 61) same few)
          (subst⁻¹ (λ u. u.enqueue_position ≤ next) same v.fits)
          (subst⁻¹ (λ u. next < u.dequeue_position + u.capacity) same (omega arith)) held
          (ap (λ s. s.readers) (settles.queue.kept (bit_and next settled.queue.mask))
            ∙ unread (bit_and next settled.queue.mask)) in
      (
        subst (λ i. Queue.release settled.queue i ≡ some (released settled.queue next)) place
            back.0,
        back.1,
        back.2,
      )

  pub round_eq :
      (rounds : ℕ)
      → Queue.dequeue c.queue ≡ some (taken.queue, some index)
      → drain_and_release es (suc rounds) c ≡ drain_and_release es rounds after
  unfolding drain_and_release
  round_eq rounds e = rw (drain_and_release, e, freed.0)

  pub after_contents : contents after.queue ≡ contents taken.queue
  after_contents = freed.2 ∙ (Answered-IsValid settles.queue valid).1

  pub after_few : after.queue.enqueue_position < 2 ^ 61
  after_few = subst⁻¹ (λ u. u.enqueue_position < 2 ^ 61) settles.queue.same few

  after_capacity : after.queue.capacity ≡ c.queue.capacity
  after_capacity = ap (λ u. u.capacity) settles.queue.same

  pub after-Unread : Unread after.queue
  after-Unread i = ground (
    arith,
    settles.queue.kept i,
    settles.queue.kept (bit_and next settled.queue.mask),
    unread i,
    unread (bit_and next settled.queue.mask),
  )

  after-Settled : (i : ℕ) → Settled c.queue i → Settled after.queue i
  after-Settled i h =
      let before = Settled-stays es taken settled i settles h in λ o w. ground (arith, before, o, w)

  pub after_asked : Asked (release_message (c.queue.slots index).message) after.calls
  after_asked = inl (ap (λ (s : Slot). release_message s.message) (sym (settles.queue.kept index)))

  pub after-Keeps : Keeps c after
  after-Keeps = record {
    closed = settles.closed;
    client = settles.client;
    thread = settles.thread;
    grown = λ x h. inr (settles.grown x h);
    settled = after-Settled;
  }
