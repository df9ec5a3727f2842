-- ===== src/Client/Handled.antt =====
-- ext/endpoint_security/client.c, handle_message on every branch.
pub mod Branches
pub mod Cases
pub mod Total
use endpoint_security.Base.{
  ℕ, suc, ◌+◌, ◌^◌, ◌<◌, ◌≡◌, ◌⊎◌, inl, inr, refl, ap, sym, subst, subst⁻¹, ◌∙◌, fun_ext, Bool,
  true, false, Option, none, some, List, [], ◌∷◌, ◌++◌, if◌then◌else◌, arith, add64, sub32, add32,
  update, Bool-cases, u64_max,
}
use endpoint_security.Slot.{Slot, AnswerState, pending, answered, not_auth}
use endpoint_security.Esapi.{
  Message, Call, retain_message, release_message, write_wakeup, Framework,
}
use endpoint_security.Queue
use endpoint_security.Queue.{Queue, index_of, write_slot}
use endpoint_security.Queue.Valid.{IsValid, Blocked, claimed, pushed}
use endpoint_security.Queue.Calls.{contents, enqueue_refines}
use endpoint_security.Watchdog
use endpoint_security.Watchdog.{Watchdog}
use endpoint_security.Watchdog.Requests.{IsRing, requested, armed, arm_refines}
use endpoint_security.Client.{
  Client, called, is_auth, flags_of, response_call, send_response, send_default, is_pending,
  mark_answered, answer_slot, notify, deadline_fire_time, record_sequence_gaps,
}
use endpoint_security.Client.Callback.{
  filled_slot, enter, leave, hand_over, answer_at_once, refuse, deliver, accept, handle_message,
}

-- `r` is a result, and one with the property.
abbrev pub Returns : Option Client → (Client → Type 0) → Type 0
Returns none P = ⊥
Returns (some e) P = P e

module _ (es : Framework) (c : Client) (native pointer now : ℕ) where
  abbrev pub auth : Bool
  auth = is_auth (es.message pointer).action_type

  abbrev pub default_call : Call
  default_call =
      response_call es native pointer c.default_auth (flags_of c.default_auth) c.default_cache

  -- The default answer, if the message is an AUTH message.
  abbrev pub with_answer : List Call → List Call
  with_answer calls = if auth then default_call ∷ calls else calls

  abbrev pub with_wakeup : List Call → List Call
  with_wakeup calls = if c.notified then calls else write_wakeup ∷ calls

  -- A client that is closed has answered an AUTH message, and nothing else.
  abbrev pub TurnedAway : Client → Type 0
  TurnedAway e =
      (e.queue ≡ c.queue)
      × (e.watchdog ≡ c.watchdog)
      × (e.dropped ≡ c.dropped)
      × (e.calls ≡ with_answer c.calls)

  -- A message without a place: retained, answered if it is an AUTH message, released and counted.
  abbrev pub Dropped : Client → Type 0
  Dropped e =
      (e.queue ≡ c.queue)
      × (e.watchdog ≡ c.watchdog)
      × (e.dropped ≡ add64 c.dropped 1)
      × (e.calls ≡ release_message pointer ∷ with_answer (retain_message pointer ∷ c.calls))

  -- The index of the next slot
  abbrev pub place : ℕ
  place = index_of c.queue c.queue.enqueue_position

  -- NOTIFY: no answer is due.
  abbrev pub Silent : Client → Type 0
  Silent e =
      (auth ≡ false)
      × ((e.queue.slots place).answer_state ≡ not_auth)
      × (e.watchdog ≡ c.watchdog)
      × (e.calls ≡ with_wakeup (retain_message pointer ∷ c.calls))

  -- AUTH: an answer is due, and the watchdog has the deadline.
  abbrev pub Awaited : Client → Type 0
  Awaited e =
      (auth ≡ true)
      × ((e.queue.slots place).answer_state ≡ pending)
      × IsRing e.watchdog
      × (requested e.watchdog
          ≡ requested c.watchdog
            ++ (record {
              slot = place;
              position = c.queue.enqueue_position;
              fire_at = deadline_fire_time c now (es.message pointer).deadline;
            }
                ∷ []))
      × (e.calls ≡ with_wakeup (retain_message pointer ∷ c.calls))

  -- AUTH, and the request ring of the watchdog is full: answered by the callback.
  abbrev pub AnsweredNow : Client → Type 0
  AnsweredNow e =
      (auth ≡ true)
      × (c.watchdog.enqueue_position ≡ c.watchdog.dequeue_position + c.watchdog.capacity)
      × ((e.queue.slots place).answer_state ≡ answered)
      × (e.watchdog ≡ c.watchdog)
      × (e.calls ≡ with_wakeup (default_call ∷ retain_message pointer ∷ c.calls))

  -- The slot names the message and is occupied, with its deadline if it is of an AUTH message.
  abbrev pub Carries : Slot → Type 0
  Carries slot =
      (slot.message ≡ pointer)
      × (slot.client ≡ native)
      × (slot.position ≡ c.queue.enqueue_position)
      × (slot.occupied ≡ true)
      × (slot.fire_at
          ≡ (if auth then deadline_fire_time c now (es.message pointer).deadline else u64_max))

  abbrev pub Queued : Client → Type 0
  Queued e =
      IsValid e.queue
      × (contents e.queue ≡ contents c.queue ++ (pointer ∷ []))
      × (e.dropped ≡ c.dropped)
      × (e.notified ≡ true)
      × Carries (e.queue.slots place)
      × (Silent e ⊎ (Awaited e ⊎ AnsweredNow e))
