-- ===== src/Client/Dispatch.antt =====
-- ext/endpoint_security/client.c, client_drain and client_stats: the Ruby dispatcher's end.
pub mod Drained
pub mod Drains
use endpoint_security.Base.{
  ℕ, zero, suc, false, Option, none, some, List, [], ◌∷◌, ltb, if◌then◌else◌, add64,
}
use endpoint_security.Queue
use endpoint_security.Client.{Client, notify}
use endpoint_security.Client.Access.{get_client, get_open_client}
use endpoint_security.Ruby.{Result, raised, returned}

-- The `for` of client_drain: at most `maximum` slots, the oldest first; each becomes a Message.
unfoldable pub drain_loop : ℕ → Client → Option (Client × List ℕ)
drain_loop zero c = some (c, [])
drain_loop (suc maximum) c = elim (Queue.dequeue c.queue) [
  | none ↦ none
  | some (q, none) ↦ some (record c { queue = q }, [])
  | some (q, some index) ↦
      elim (drain_loop maximum (record c { queue = q; delivered = add64 c.delivered 1 })) [
        | none ↦ none
        | some (d, rest) ↦ some (d, index ∷ rest)
      ]
]

-- The end of client_drain: wake again if messages are left. The pipe has been emptied before.
unfoldable pub rearm : Client → Client
rearm c =
    let d = record c { notified = false } in
    if ltb 0 (Queue.depth d.queue d.queue) then notify d else d

-- From the test of the client on
unfoldable pub drain : ℕ → Client → Option (Client × List ℕ)
unfolding drain_loop rearm
drain maximum c = elim (drain_loop maximum c) [
  | none ↦ none
  | some (d, slots) ↦ some (rearm d, slots)
]

-- client_drain, in the process `pid`
unfoldable pub client_drain : ℕ → Client → ℕ → Option (Client × Result (List ℕ))
unfolding get_open_client drain
client_drain maximum c pid = elim (get_open_client c pid) [
  | raised e ↦ some (c, raised e)
  | returned d ↦ elim (drain maximum d) [ none ↦ none | some (d, slots) ↦ some (d, returned slots) ]
]

-- client_stats
pub record Stats : Type 0 where
  pub delivered : ℕ
  pub dropped : ℕ
  pub timeouts : ℕ
  pub response_errors : ℕ
  pub delete_errors : ℕ
  pub errors : ℕ
  pub queue_depth_max : ℕ
  pub queue_depth : ℕ
  pub seq_gaps : ℕ
  pub leaked_messages : ℕ

abbrev pub stats_of : Client → Stats
stats_of c = record {
  delivered = c.delivered;
  dropped = c.dropped;
  timeouts = c.timeouts;
  response_errors = c.response_errors;
  delete_errors = c.delete_errors;
  errors = c.errors;
  queue_depth_max = c.queue.depth_max;
  queue_depth = Queue.depth c.queue c.queue;
  seq_gaps = c.seq_gaps;
  leaked_messages = c.leaked_messages;
}

unfoldable pub client_stats : Client → ℕ → Result Stats
unfolding get_client
client_stats c pid = elim (get_client c pid) [
  | raised e ↦ raised e
  | returned d ↦ returned (stats_of d)
]
