-- ===== src/Client/Close/Rounds.antt =====
-- ext/endpoint_security/client.c, client_drain_and_release as a whole: it comes to its end with nothing
-- waiting.
use endpoint_security.Base.{
  ℕ, zero, suc, ◌^◌, ◌<◌, ◌≡◌, inl, inr, refl, ap, sym, subst⁻¹, ◌∙◌, Option, none, some, List, [],
  ◌∷◌, arith,
}
use endpoint_security.Base.Lists.{length}
use endpoint_security.Esapi.{Call, release_message, Framework}
use endpoint_security.Queue
use endpoint_security.Queue.{Queue, index_of}
use endpoint_security.Queue.Valid.{IsValid}
use endpoint_security.Queue.Calls.{contents, dequeue_refines}
use endpoint_security.Client.{Client}
use endpoint_security.Client.Answer.{Asked}
use endpoint_security.Client.Handled.{Returns}
use endpoint_security.Client.Dispatch.Drained.{length-contents}
use endpoint_security.Client.Settles.{Grown}
use endpoint_security.Client.Close.{drain_and_release}
use endpoint_security.Client.Close.Emptied.{
  Unread, Released, Keeps, after, round_eq, freed, after_contents, after_few, after-Unread,
  after_asked, after-Keeps,
}

pub Released-grows :
    (calls more : List Call) (messages : List ℕ)
    → Grown calls more
    → Released messages calls
    → Released messages more
Released-grows calls more [] g h = tt
Released-grows calls more (m ∷ messages) g (a, h) =
    (g (release_message m) a, Released-grows calls more messages g h)

Keeps-trans : {c d e : Client} → Keeps c d → Keeps d e → Keeps c e
Keeps-trans a b = record {
  closed = b.closed ∙ a.closed;
  client = b.client ∙ a.client;
  thread = b.thread ∙ a.thread;
  grown = λ x h. b.grown x (a.grown x h);
  settled = λ i h. b.settled i (a.settled i h);
}

-- What client_drain_and_release leaves
pub record Emptied (c d : Client) : Type 0 where
  pub ring : IsValid d.queue
  pub empty : contents d.queue ≡ []
  pub released : Released (contents c.queue) d.calls
  pub keeps : Keeps c d

module _ (es : Framework) where
  next-Emptied :
      (c d e : Client) (m : ℕ)
      → contents c.queue ≡ m ∷ contents d.queue
      → Asked (release_message m) d.calls
      → Keeps c d
      → Emptied d e
      → Emptied c e
  next-Emptied c d e m first asked keeps h = record {
    ring = h.ring;
    empty = h.empty;
    released =
        subst⁻¹ (λ xs. Released xs e.calls) first
          (h.keeps.grown (release_message m) asked, h.released);
    keeps = Keeps-trans keeps h.keeps;
  }

  last_round :
      (rounds : ℕ) (c : Client)
      → Queue.dequeue c.queue ≡ some (c.queue, none)
      → drain_and_release es (suc rounds) c ≡ some c
  unfolding drain_and_release
  last_round rounds c e = rw (drain_and_release, e)

  Returns-mono :
      {P Q : Client → Type 0} (r : Option Client)
      → ((e : Client) → P e → Q e)
      → Returns r P
      → Returns r Q
  Returns-mono none f h = h
  Returns-mono (some e) f h = f e h

  pub drain-Emptied :
      (rounds : ℕ) (c : Client)
      → IsValid c.queue
      → c.queue.enqueue_position < 2 ^ 61
      → Unread c.queue
      → length (contents c.queue) < rounds
      → Returns (drain_and_release es rounds c) (Emptied c)
  drain-Emptied zero c v few unread enough = absurd (omega arith)
  drain-Emptied (suc rounds) c v few unread enough = elim (dequeue_refines v few) [
    | inl (empty, eq) ↦
        subst⁻¹ (λ r. Returns r (Emptied c)) (last_round rounds c eq)
          (record {
            ring = v;
            empty = empty;
            released = subst⁻¹ (λ xs. Released xs c.calls) empty tt;
            keeps = record {
              closed = refl;
              client = refl;
              thread = refl;
              grown = λ x h. h;
              settled = λ i h. h;
            };
          })
    | inr (eq, v', first) ↦
        let left : c.queue.dequeue_position < c.queue.enqueue_position =
          omega (arith, length-contents c.queue, ap length first) in
        let d = after es c v few unread left v' in
        let same = after_contents es c v few unread left v' in
        subst⁻¹ (λ r. Returns r (Emptied c)) (round_eq es c v few unread left v' rounds eq)
          (Returns-mono (drain_and_release es rounds d)
            (λ e.
              next-Emptied c d e (c.queue.slots (index_of c.queue c.queue.dequeue_position)).message
                (first
                  ∙ ap
                      (λ xs.
                        (c.queue.slots (index_of c.queue c.queue.dequeue_position)).message ∷ xs)
                      (sym same))
                (after_asked es c v few unread left v') (after-Keeps es c v few unread left v'))
            (drain-Emptied rounds d (freed es c v few unread left v').1
              (after_few es c v few unread left v') (after-Unread es c v few unread left v')
              (omega (arith, ap length first, ap length same))))
  ]
