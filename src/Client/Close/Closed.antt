-- ===== src/Client/Close/Closed.antt =====
-- ext/endpoint_security/client.c, client_close_native as a whole: what a client that is closed has
-- asked of the framework, and that the close comes to its end.
use endpoint_security.Base.{
  ℕ, suc, ◌^◌, ◌<◌, ◌≡◌, ◌≢◌, inl, inr, refl, ap, subst, subst⁻¹, ◌∙◌, true, false, Option, none,
  some, [], ◌==◌, if◌then◌else◌, Bool-cases, arith,
}
use endpoint_security.Slot.{Slot, pending}
use endpoint_security.Esapi.{unsubscribe_all, delete_client, Framework}
use endpoint_security.Queue.{Queue}
use endpoint_security.Queue.Answered.{Answered-IsValid}
use endpoint_security.Queue.Valid.{IsValid}
use endpoint_security.Queue.Calls.{contents}
use endpoint_security.Client.{Client, called, notify}
use endpoint_security.Client.Answer.{Asked, default_call}
use endpoint_security.Client.Handled.{Returns}
use endpoint_security.Client.Dispatch.Drained.{length-contents}
use endpoint_security.Client.Settles.{Settles, Grown}
use endpoint_security.Client.Close.{
  answer_occupied, drain_and_release, finish_threads, close_native,
}
use endpoint_security.Client.Close.Swept.{Settled, answer_occupied-Settles, answer_occupied-Settled}
use endpoint_security.Client.Close.Emptied.{Unread, Released}
use endpoint_security.Client.Close.Rounds.{Emptied, Released-grows, drain-Emptied}

module _ (es : Framework) where
  -- The client before its slots are answered: marked, unsubscribed, and the watchdog told to stop
  abbrev unsubscribed : Client → Client
  unsubscribed c =
      let c1 = record c { closed = true } in
      if c1.client == 0 then c1 else called c1 (unsubscribe_all c1.client)

  abbrev stopped : Client → Client
  stopped c =
      let c2 = unsubscribed c in
      if c2.watchdog_thread_started
      then record c2 { watchdog_running = false; watchdog_stopped = true }
      else c2

  -- What the marks before the answers keep
  abbrev Begun : Client → Client → Type 0
  Begun c d =
      (d.queue ≡ c.queue)
      × (d.default_auth ≡ c.default_auth)
      × (d.default_cache ≡ c.default_cache)
      × (d.closed ≡ true)
      × (d.client ≡ c.client)
      × (d.watchdog_thread_started ≡ c.watchdog_thread_started)
      × (c.client ≢ 0 → Asked (unsubscribe_all c.client) d.calls)

  stopped-Begun : (c : Client) → Begun c (stopped c)
  stopped-Begun c = elim (Bool-cases (c.client == 0)) [
    | inl t ↦ ground (arith, t)
    | inr f ↦ ground (arith, f)
  ]

  -- What the end keeps
  abbrev Ended : Client → Client → Type 0
  Ended d e =
      (e.queue ≡ d.queue)
      × (e.closed ≡ d.closed)
      × (e.watchdog_thread_started ≡ false)
      × Grown d.calls e.calls
      × (d.watchdog_thread_started ≡ true → (e.client ≡ 0) × Asked (delete_client d.client) e.calls)

  notify-Ended : (d e : Client) → Ended d e → Ended d (notify e)
  unfolding notify
  notify-Ended d e (q, c, w, g, t) = (
    ground (arith, q),
    ground (arith, c),
    ground (arith, w),
    λ x h. ground (arith, g x h),
    λ h. ground (arith, t h),
  )

  finish_threads-Ended : (d : Client) → Ended d (finish_threads es d)
  finish_threads-Ended d = elim (Bool-cases d.watchdog_thread_started) [
    | inl t ↦ (
      ground (arith, t),
      ground (arith, t),
      ground (arith, t),
      λ x h. ground (arith, t, h),
      λ h. ground (arith, t),
    )
    | inr f ↦ (
      ground (arith, f),
      ground (arith, f),
      ground (arith, f),
      λ x h. ground (arith, f, h),
      λ h. absurd (ground (arith, f, h)),
    )
  ]

-- What a client that was closed has done
pub record IsClosed (es : Framework) (c e : Client) : Type 0 where
  pub closed : e.closed ≡ true
  pub ring : IsValid e.queue
  pub empty : contents e.queue ≡ []
  pub settled : (i : ℕ) → i < c.queue.capacity → Settled e.queue i
  pub answered :
      (i : ℕ)
      → i < c.queue.capacity
      → (c.queue.slots i).occupied ≡ true
      → (c.queue.slots i).answer_state ≡ pending
      → Asked (default_call es c (c.queue.slots i)) e.calls
  pub released : Released (contents c.queue) e.calls
  pub unsubscribed : c.client ≢ 0 → Asked (unsubscribe_all c.client) e.calls
  pub again : close_native es e ≡ some e
  pub joined : e.watchdog_thread_started ≡ false
  pub deleted :
      c.watchdog_thread_started ≡ true → (e.client ≡ 0) × Asked (delete_client c.client) e.calls

module _ (es : Framework) (c s : Client) (begun : Begun es c s) (v : IsValid c.queue) where
  abbrev swept : Client
  swept = answer_occupied es s.queue.capacity 0 s

  swept-Settles : Settles es s swept
  swept-Settles = answer_occupied-Settles es s.queue.capacity 0 s

  swept-Settled : (i : ℕ) → i < c.queue.capacity → Settled swept.queue i
  swept-Settled i l =
      let same : s.queue.capacity ≡ c.queue.capacity = ap (λ q. q.capacity) begun.0 in
      answer_occupied-Settled es s.queue.capacity 0 s i (omega arith) (omega (arith, same))

  swept_answered :
      (i : ℕ)
      → i < c.queue.capacity
      → (c.queue.slots i).occupied ≡ true
      → (c.queue.slots i).answer_state ≡ pending
      → Asked (default_call es c (c.queue.slots i)) swept.calls
  swept_answered i l occupied waits =
      let (queue, auth, cache, closed, client, thread, unsubscribed) = begun in
      let same_default : default_call es s (s.queue.slots i) ≡ default_call es c (c.queue.slots i) =
        rw (queue, auth, cache) in
      elim (swept-Settles.either i) [
        | inl same ↦ absurd (
            swept-Settled i l
              (ap (λ (s : Slot). s.occupied) (swept-Settles.queue.kept i)
                ∙ ap (λ q. (q.slots i).occupied) queue
                ∙ occupied)
              (same ∙ ap (λ q. (q.slots i).answer_state) queue ∙ waits))
        | inr asked ↦ subst (λ x. Asked x swept.calls) same_default asked
      ]

  s-IsValid : IsValid s.queue
  s-IsValid = subst⁻¹ IsValid begun.0 v

  swept_contents : contents swept.queue ≡ contents c.queue
  swept_contents = (Answered-IsValid swept-Settles.queue s-IsValid).1 ∙ ap contents begun.0

  closes-IsClosed : (d e : Client) → Emptied swept d → Ended es d e → IsClosed es c e
  unfolding close_native
  closes-IsClosed d e h (queue', closed', thread', grown, deleted) =
      let (queue, auth, cache, closed, client, thread, unsubscribed) = begun in
      let all : Grown swept.calls e.calls = λ x a. grown x (h.keeps.grown x a) in
      let ends : e.closed ≡ true = closed' ∙ h.keeps.closed ∙ swept-Settles.closed ∙ closed in
      record {
        closed = ends;
        joined = thread';
        again = ground (arith, ends);
        ring = subst⁻¹ IsValid queue' h.ring;
        empty = ap contents queue' ∙ h.empty;
        settled = λ i l. subst⁻¹ (λ q. Settled q i) queue' (h.keeps.settled i (swept-Settled i l));
        answered = λ i l o w. all (default_call es c (c.queue.slots i)) (swept_answered i l o w);
        released =
            Released-grows d.calls e.calls (contents c.queue) grown
              (subst (λ xs. Released xs d.calls) swept_contents h.released);
        unsubscribed = λ n.
            all (unsubscribe_all c.client)
              (swept-Settles.grown (unsubscribe_all c.client) (unsubscribed n));
        deleted = λ t.
            let (none_left, asked) = deleted (h.keeps.thread ∙ swept-Settles.thread ∙ thread ∙ t) in
            (
              none_left,
              subst (λ n. Asked (delete_client n) e.calls)
                  (h.keeps.client ∙ swept-Settles.client ∙ client) asked,
            );
      }

  drains :
      c.queue.enqueue_position < 2 ^ 61
      → Unread c.queue
      → Returns (drain_and_release es (suc swept.queue.capacity) swept) (Emptied swept)
  drains few unread =
      let same : swept.queue ≡ record c.queue { slots = swept.queue.slots } =
        swept-Settles.queue.same
        ∙ ap {A = Queue} {B = Queue} (λ q. record q { slots = swept.queue.slots }) begun.0 in
      let valid = (Answered-IsValid swept-Settles.queue s-IsValid).0 in
      drain-Emptied es (suc swept.queue.capacity) swept valid
        (subst⁻¹ (λ q. q.enqueue_position < 2 ^ 61) same few)
        (λ i. ground (arith, swept-Settles.queue.kept i, begun.0, unread i))
        (omega (arith, length-contents swept.queue, valid.fits))

module _ (es : Framework) (c : Client) where
  abbrev all_answered : Client
  all_answered = answer_occupied es (stopped es c).queue.capacity 0 (stopped es c)

  close_path :
      (d : Client)
      → c.closed ≡ false
      → c.active_callbacks ≡ 0
      → drain_and_release es (suc all_answered.queue.capacity) all_answered ≡ some d
      → close_native es c ≡ some (notify (finish_threads es d))
  unfolding close_native
  close_path d alive idle e = ground (arith, alive, idle, e)

  closed_path :
      (r : Option Client)
      → c.closed ≡ false
      → c.active_callbacks ≡ 0
      → IsValid c.queue
      → drain_and_release es (suc all_answered.queue.capacity) all_answered ≡ r
      → Returns r (Emptied all_answered)
      → Returns (close_native es c) (IsClosed es c)
  closed_path none alive idle v e h = elim h [ ]
  closed_path (some d) alive idle v e h =
      subst⁻¹ (λ r. Returns r (IsClosed es c)) (close_path d alive idle e)
        (closes-IsClosed es c (stopped es c) (stopped-Begun es c) v d (notify (finish_threads es d))
          h (notify-Ended es d (finish_threads es d) (finish_threads-Ended es d)))

  -- Closing a client that is not closed and has no callback running, with a valid queue whose
  -- enqueue position is below 2^61 and whose slots nobody reads, comes to its end. Then the
  -- client is closed; every slot of the ring that was occupied and pending got its default
  -- answer, and none is occupied and pending any more; every message that waited went back to
  -- the framework and none waits, in a valid queue; if it had a client of the framework, that
  -- was unsubscribed from everything, and, if the watchdog thread was started, deleted and
  -- forgotten; no watchdog thread is left to be joined. A second close does nothing.
  pub close_native-IsClosed :
      c.closed ≡ false
      → c.active_callbacks ≡ 0
      → IsValid c.queue
      → c.queue.enqueue_position < 2 ^ 61
      → Unread c.queue
      → Returns (close_native es c) (IsClosed es c)
  close_native-IsClosed alive idle v few unread =
      closed_path (drain_and_release es (suc all_answered.queue.capacity) all_answered) alive idle v
        refl (drains es c (stopped es c) (stopped-Begun es c) v few unread)
