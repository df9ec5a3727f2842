-- ===== src/Client/Callback.antt =====
-- ext/endpoint_security/client.c, handle_message: the ES callback, from the framework's thread.
use endpoint_security.Base.{
  ℕ, true, false, Option, none, some, if◌then◌else◌, add64, add32, sub32, u64_max,
}
use endpoint_security.Slot.{Slot, pending, not_auth}
use endpoint_security.Esapi.{Message, retain_message, release_message, Framework}
use endpoint_security.Queue
use endpoint_security.Queue.{Queue, write_slot}
use endpoint_security.Watchdog
use endpoint_security.Client.{
  Client, called, is_auth, send_default, answer_slot, notify, deadline_fire_time,
  record_sequence_gaps,
}

-- The slot as the callback fills it, at the time `now`.
abbrev pub filled_slot : Client → Slot → ℕ → ℕ → Message → ℕ → Slot
filled_slot c slot native pointer m now = record slot {
  message = pointer;
  client = native;
  fire_at = if is_auth m.action_type then deadline_fire_time c now m.deadline else u64_max;
  answer_state = if is_auth m.action_type then pending else not_auth;
  occupied = true;
}

abbrev pub enter : Client → Client
enter c = record c { active_callbacks = add32 c.active_callbacks 1 }

abbrev pub leave : Client → Client
leave c = record c { active_callbacks = sub32 c.active_callbacks 1 }

-- esrb_queue_publish, esrb_notify and the end of the callback
unfoldable pub hand_over : Client → ℕ → Client
hand_over c index = leave (notify (record c { queue = Queue.publish c.queue index }))

module _ (es : Framework) where
  -- What the callback does for an AUTH message that cannot be queued.
  abbrev pub answer_at_once : Client → ℕ → ℕ → Client
  answer_at_once c native pointer =
      if is_auth (es.message pointer).action_type then send_default es c native pointer else c

  unfoldable pub refuse : Client → ℕ → ℕ → Client
  refuse c native pointer =
      let d = answer_at_once c native pointer in
      leave (called (record d { dropped = add64 d.dropped 1 }) (release_message pointer))

  -- Arm the watchdog for the slot, or answer it if that fails, and publish.
  unfoldable pub arm_or_answer : Client → ℕ → Slot → Option Client
  unfolding hand_over
  arm_or_answer c index slot = elim (Watchdog.arm c.watchdog index slot) [
    | none ↦ none
    | some (w, true) ↦ some (hand_over (record c { watchdog = w }) index)
    | some (w, false) ↦ some (hand_over (answer_slot es (record c { watchdog = w }) index) index)
  ]

  -- With the slot at `index`
  unfoldable pub deliver : Client → ℕ → ℕ → ℕ → ℕ → Option Client
  unfolding arm_or_answer
  deliver c index native pointer now =
      let m = es.message pointer in
      let slot = filled_slot c (c.queue.slots index) native pointer m now in
      let d = record c { queue = write_slot c.queue index slot } in
      let armed = arm_or_answer d index slot in
      if is_auth m.action_type then armed else some (hand_over d index)

  -- handle_message from esrb_queue_enqueue on
  unfoldable pub accept : Client → ℕ → ℕ → ℕ → Option Client
  accept c native pointer now = elim (Queue.enqueue c.queue) [
    | none ↦ none
    | some (q, none) ↦ some (refuse (record c { queue = q }) native pointer)
    | some (q, some index) ↦ deliver (record c { queue = q }) index native pointer now
  ]

  unfoldable pub handle_message : Client → ℕ → ℕ → ℕ → Option Client
  unfolding accept
  handle_message c native pointer now =
      let c1 = enter c in
      let c2 = called (record_sequence_gaps c1 (es.message pointer)) (retain_message pointer) in
      let queued = accept c2 native pointer now in
      if c1.closed then some (leave (answer_at_once c1 native pointer)) else queued
