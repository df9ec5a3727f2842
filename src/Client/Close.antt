-- ===== src/Client/Close.antt =====
-- ext/endpoint_security/client.c, client_close_native.
pub mod Swept
pub mod Emptied
pub mod Rounds
pub mod Closed
use endpoint_security.Base.{
  ℕ, zero, suc, true, false, Option, none, some, ◌==◌, if◌then◌else◌, add64,
}
use endpoint_security.Esapi.{success, release_message, unsubscribe_all, delete_client, Framework}
use endpoint_security.Queue
use endpoint_security.Client.{Client, called, answer_slot, notify}

module _ (es : Framework) where
  -- client_answer_occupied: the loop from slot `index` on, with that many slots left.
  unfoldable pub answer_occupied : ℕ → ℕ → Client → Client
  answer_occupied zero index c = c
  answer_occupied (suc left) index c =
      answer_occupied left (suc index)
        (if (c.queue.slots index).occupied then answer_slot es c index else c)

  -- client_drain_and_release, for at most so many slots.
  unfoldable pub drain_and_release : ℕ → Client → Option Client
  drain_and_release zero c = none
  drain_and_release (suc rounds) c = elim (Queue.dequeue c.queue) [
    | none ↦ none
    | some (q, none) ↦ some (record c { queue = q })
    | some (q, some index) ↦
        let d = answer_slot es (record c { queue = q }) index in
        let e = called d (release_message (d.queue.slots index).message) in
        elim (Queue.release e.queue index) [
          | none ↦ none
          | some r ↦ drain_and_release rounds (record e { queue = r })
        ]
  ]

  -- What client_native_main does once it may delete the client.
  abbrev pub delete : Client → Client
  delete c =
      let response = es.returns c.calls (delete_client c.client) in
      record (called c (delete_client c.client)) {
        delete_errors = if response == success then c.delete_errors else add64 c.delete_errors 1;
      }

  abbrev pub finish_threads : Client → Client
  finish_threads c =
      if c.watchdog_thread_started
      then record (delete (record c { delete_ready = true })) {
        watchdog_thread_started = false;
        client = 0;
      }
      else c

  -- The waits for the callbacks is over at once or never; the watchdog stops when it is told to.
  unfoldable pub close_native : Client → Option Client
  unfolding answer_occupied drain_and_release
  close_native c =
      let c1 = record c { closed = true } in
      let c2 = if c1.client == 0 then c1 else called c1 (unsubscribe_all c1.client) in
      let c3 =
        if c2.watchdog_thread_started
        then record c2 { watchdog_running = false; watchdog_stopped = true }
        else c2 in
      let c4 = answer_occupied c3.queue.capacity 0 c3 in
      let drained : Option Client = elim (drain_and_release (suc c4.queue.capacity) c4) [
        | none ↦ none
        | some d ↦ some (notify (finish_threads d))
      ] in
      if c.closed then some c else if c2.active_callbacks == 0 then drained else none
