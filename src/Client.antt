-- ===== src/Client.antt =====
-- ext/endpoint_security/client.c: esrb_client_t and its operations, each as one call by a thread
-- that nobody interrupts. `none` stands for a call that would go on waiting. `calls` records what
-- was asked of the framework, the latest first.
pub mod Callback
pub mod Deadline
pub mod Dispatch
pub mod Close
pub mod Answer
pub mod Settles
pub mod Access
pub mod Lifetime
pub mod Handled
pub mod Initialize
pub mod Samples
mod Tests
use endpoint_security.Base.{
  ℕ, suc, ◌+◌, ◌-◌, Bool, true, false, ◌&&◌, Option, none, some, List, [], ◌∷◌, ltb, leb, ◌==◌,
  if◌then◌else◌, add64, sub64, add32, sub32, u64_max, u32_max, update,
}
use endpoint_security.Slot.{Slot, AnswerState, pending, answered, not_auth}
use endpoint_security.Esapi.{
  AuthResult, allow, deny, ActionType, action_auth, Message, event_auth_open, event_last, success,
  Call, respond_flags, respond_auth, retain_message, release_message, write_wakeup, Framework,
}
use endpoint_security.Queue
use endpoint_security.Queue.{Queue, write_slot}
use endpoint_security.Watchdog
use endpoint_security.Watchdog.{Watchdog}

-- `deadline_margin`: 1.0, or another double with what its product with a number of ticks is when
-- it is cut to a `uint64_t`.
pub data Margin : Type 0 where
  whole : Margin
  fraction : (ℕ → ℕ) → Margin

-- esrb_client_t; the threads, the pipe's descriptors and their locks are left out.
pub record Client : Type 0 where
  pub client : ℕ
  pub queue : Queue
  pub watchdog : Watchdog
  pub watchdog_thread_started : Bool
  pub watchdog_running : Bool
  pub watchdog_stopped : Bool
  pub delete_ready : Bool
  pub notified : Bool
  pub closed : Bool
  pub active_callbacks : ℕ
  pub dropped : ℕ
  pub delivered : ℕ
  pub timeouts : ℕ
  pub response_errors : ℕ
  pub delete_errors : ℕ
  pub errors : ℕ
  pub seq_gaps : ℕ
  pub leaked_messages : ℕ
  pub last_global_seq : ℕ
  pub seen_global_seq : Bool
  pub last_event_seq : ℕ → ℕ
  pub seen_event_seq : ℕ → Bool
  pub default_auth : AuthResult
  pub default_cache : Bool
  pub strict_cache : Bool
  pub strict_version : Bool
  pub warn_on_truncated_path : Bool
  pub deadline_margin : Margin
  pub min_margin_ticks : ℕ
  pub owner_pid : ℕ
  pub calls : List Call

abbrev pub called : Client → Call → Client
called c call = record c { calls = call ∷ c.calls }

abbrev pub is_auth : ActionType → Bool
is_auth action_auth = true
is_auth _ = false

-- `default_auth == ES_AUTH_RESULT_ALLOW ? UINT32_MAX : 0`
abbrev pub flags_of : AuthResult → ℕ
flags_of allow = u32_max
flags_of deny = 0

module _ (es : Framework) where
  -- AUTH_OPEN is answered with flags, every other event with a result.
  abbrev pub response_call : ℕ → ℕ → AuthResult → ℕ → Bool → Call
  response_call native m result flags cache =
      if (es.message m).event_type == event_auth_open
      then respond_flags native m flags cache
      else respond_auth native m result cache

  -- esrb_send_response
  unfoldable pub send_response : Client → ℕ → ℕ → AuthResult → ℕ → Bool → Client × ℕ
  send_response c native m result flags cache =
      let call = response_call native m result flags cache in
      let response = es.returns c.calls call in
      (
        record (called c call) {
          response_errors =
              if response == success then c.response_errors else add64 c.response_errors 1;
        },
        response,
      )

  unfoldable pub send_default : Client → ℕ → ℕ → Client
  unfolding send_response
  send_default c native m =
      (send_response c native m c.default_auth (flags_of c.default_auth) c.default_cache).0

  -- The compare-and-exchange from ESRB_ANSWER_PENDING to ESRB_ANSWER_ANSWERED.
  abbrev pub is_pending : AnswerState → Bool
  is_pending pending = true
  is_pending _ = false

  abbrev pub mark_answered : Client → ℕ → Client
  mark_answered c index =
      let slot = c.queue.slots index in
      record c { queue = write_slot c.queue index (record slot { answer_state = answered }) }

  -- client_answer_slot
  unfoldable pub answer_slot : Client → ℕ → Client
  unfolding send_default
  answer_slot c index =
      let slot = c.queue.slots index in
      if is_pending slot.answer_state
      then send_default (mark_answered c index) slot.client slot.message
      else c

  -- esrb_respond_slot: whether the response was sent and accepted, and the framework's code if it
  -- was sent.
  unfoldable pub respond_slot : Client → ℕ → AuthResult → ℕ → Bool → Client × Bool × Option ℕ
  unfolding send_response
  respond_slot c index result flags cache =
      let slot = c.queue.slots index in
      let (sent, code) =
        send_response (mark_answered c index) slot.client slot.message result flags cache in
      if c.closed
      then (c, false, none)
      else if is_pending slot.answer_state
      then (sent, code == success, some code)
      else (c, false, none)

-- esrb_notify: one byte wakes the dispatcher until it has drained the queue.
unfoldable pub notify : Client → Client
notify c = if c.notified then c else called (record c { notified = true }) write_wakeup

abbrev pub advance_of : Margin → ℕ → ℕ
advance_of whole remaining = remaining
advance_of (fraction scaled) remaining = scaled remaining

-- deadline_fire_time, at the time `now`
unfoldable pub deadline_fire_time : Client → ℕ → ℕ → ℕ
deadline_fire_time c now deadline =
    let remaining = deadline - now in
    let scaled = advance_of c.deadline_margin remaining in
    let advance = if ltb scaled c.min_margin_ticks then c.min_margin_ticks else scaled in
    if leb deadline now then now else if leb remaining advance then now else deadline - advance

-- record_sequence_gaps
unfoldable pub record_sequence_gaps : Client → Message → Client
record_sequence_gaps c m =
    let type = m.event_type in
    let gaps = λ (seen : Bool) (previous number : ℕ).
      if seen && ltb (add64 previous 1) number
      then add64 c.seq_gaps (sub64 (sub64 number previous) 1)
      else c.seq_gaps in
    if leb 4 m.version
    then record c {
      last_global_seq = m.global_seq_num;
      seen_global_seq = true;
      seq_gaps = gaps c.seen_global_seq c.last_global_seq m.global_seq_num;
    }
    else if leb 2 m.version && ltb type event_last
    then record c {
      last_event_seq = update c.last_event_seq type m.seq_num;
      seen_event_seq = update c.seen_event_seq type true;
      seq_gaps = gaps (c.seen_event_seq type) (c.last_event_seq type) m.seq_num;
    }
    else c
