-- ===== src/Message.antt =====
-- ext/endpoint_security/message.c: esrb_message_t, the Ruby object around a slot that the dispatcher
-- has taken from the queue. `pid` is what getpid() says; `none` stands for a call that would go on
-- waiting for a reader of the slot.
pub mod Release
pub mod Respond
pub mod Allow
pub mod Readers
mod Tests
use endpoint_security.Base.{
  ℕ, Bool, true, false, ◌&&◌, ◌||◌, not, Option, none, some, leb, ◌==◌, if◌then◌else◌, add64,
  u32_max,
}
use endpoint_security.Slot.{Slot, AnswerState, pending, answered, not_auth}
use endpoint_security.Esapi.{
  AuthResult, allow, deny, ActionType, action_auth, action_notify, action_other, Message,
  NotifyResult, result_flags, result_auth, result_other, event_auth_open, success, release_message,
  Framework,
}
use endpoint_security.Queue
use endpoint_security.Queue.{write_slot}
use endpoint_security.Client.{Client, called, is_auth, flags_of, respond_slot}
use endpoint_security.Ruby.{
  Error, forked_client_error, message_invalidated_error, non_cacheable_event_error, message_error,
  Result, raised, returned, Value, nil, boolean, number, symbol_auth, symbol_notify, symbol_allow,
  symbol_deny,
}

-- esrb_message_t, with its slot by the index
pub record Wrapper : Type 0 where
  pub slot : ℕ
  pub valid : Bool
  pub held : Bool

abbrev pub message_owned_here : Client → ℕ → Bool
message_owned_here c pid = c.owner_pid == pid

abbrev pub message_wrap : ℕ → Wrapper
message_wrap slot = record { slot = slot; valid = true; held = false }

-- get_message
unfoldable pub get_message : Client → ℕ → Wrapper → Result Wrapper
get_message c pid m =
    if not (message_owned_here c pid)
    then raised forked_client_error
    else if not m.valid
    then raised message_invalidated_error
    else returned m

-- `rb_raise` leaves the method: the rest of it runs on a usable message only.
abbrev pub with_message {ℓ} : {A : Type ℓ} → Client → ℕ → Wrapper → A → (Error → A) → A
with_message c pid m usable refuse = elim (get_message c pid m) [
  | raised e ↦ refuse e
  | returned _ ↦ usable
]

-- The slot goes back to the ring: disarm, release the message, release the slot.
unfoldable pub give_back : Client → ℕ → Option Client
give_back c index = elim (Queue.disarm (c.queue.slots index)) [
  | none ↦ none
  | some slot ↦
      let d =
        called (record c { queue = write_slot c.queue index slot })
          (release_message slot.message) in
      elim (Queue.release d.queue index) [ none ↦ none | some q ↦ some (record d { queue = q }) ]
]

module _ (es : Framework) where
  abbrev pub default_response : Client → Wrapper → Client × Bool × Option ℕ
  default_response c m =
      respond_slot es c m.slot c.default_auth (flags_of c.default_auth) c.default_cache

  unfoldable pub message_release : Client → ℕ → Wrapper → Option (Client × Wrapper)
  unfolding give_back
  message_release c pid m =
      let gone = record m { valid = false } in
      let back : Option (Client × Wrapper) = elim (give_back (default_response c m).0 m.slot) [
        | none ↦ none
        | some d ↦ some (d, gone)
      ] in
      if not m.valid
      then some (c, m)
      else if not (message_owned_here c pid)
      then some (c, gone)
      else back

  -- message_free: the client after the object has been collected.
  unfoldable pub message_free : Client → ℕ → Wrapper → Option Client
  unfolding message_release
  message_free c pid m =
      let leaked =
        if m.valid && (m.held && message_owned_here c pid)
        then record c { leaked_messages = add64 c.leaked_messages 1 }
        else c in
      elim (message_release leaked pid m) [ none ↦ none | some (d, w) ↦ some d ]

  unfoldable pub message_release_bang :
      Client → ℕ → Wrapper → Option (Client × Wrapper × Result Value)
  unfolding message_release
  message_release_bang c pid m =
      let released : Option (Client × Wrapper × Result Value) = elim (message_release c pid m) [
        | none ↦ none
        | some (d, w) ↦ some (d, w, returned nil)
      ] in
      if not (message_owned_here c pid) then some (c, m, raised forked_client_error) else released

  unfoldable pub message_auto_release : Client → ℕ → Wrapper → Option (Client × Wrapper)
  unfolding message_release
  message_auto_release c pid m =
      let released = message_release c pid m in if m.held then some (c, m) else released

  -- respond_slot of message.c: a response that the framework refused raises.
  unfoldable pub send : Client → Wrapper → AuthResult → ℕ → Bool → Client × Result Value
  send c m result flags cache =
      let (d, sent, code) = respond_slot es c m.slot result flags cache in
      (
        d,
        elim code [
          | none ↦ returned (boolean sent)
          | some n ↦
              if n == success then returned (boolean sent) else raised (message_error (some n))
        ],
      )

  -- allow! and deny!; `cacheable` is EventType.cacheable? of the Ruby library.
  unfoldable pub respond_auth :
      (ℕ → Bool) → Client → ℕ → Wrapper → AuthResult → Bool → Client × Result Value
  unfolding send
  respond_auth cacheable c pid m result cache =
      let message = es.message (c.queue.slots m.slot).message in
      let uncached = cache && not (cacheable message.event_type) in
      let sent = send c m result (flags_of result) (if uncached then false else cache) in
      let checked =
        if not (is_auth message.action_type)
        then (c, raised (message_error none))
        else if uncached && c.strict_cache
        then (c, raised non_cacheable_event_error)
        else sent in
      with_message c pid m checked (λ e. (c, raised e))

  unfoldable pub message_respond : Client → ℕ → Wrapper → ℕ → Bool → Client × Result Value
  unfolding send
  message_respond c pid m flags cache =
      let message = es.message (c.queue.slots m.slot).message in
      let sent = send c m allow flags cache in
      let checked =
        if not (is_auth message.action_type) || not (message.event_type == event_auth_open)
        then (c, raised (message_error none))
        else sent in
      with_message c pid m checked (λ e. (c, raised e))

  unfoldable pub message_respond_default : Client → ℕ → Wrapper → Client × Result Value
  message_respond_default c pid m =
      let (d, sent, code) = default_response c m in
      with_message c pid m (d, returned (boolean sent)) (λ e. (c, raised e))

  -- The readers, each on a usable message
  abbrev pub message_of : Client → Wrapper → Message
  message_of c m = es.message (c.queue.slots m.slot).message

  unfoldable pub message_seq_num : Client → ℕ → Wrapper → Result Value
  message_seq_num c pid m =
      let message = message_of c m in
      with_message c pid m
        (returned (if leb 2 message.version then number message.seq_num else nil)) raised

  unfoldable pub message_global_seq_num : Client → ℕ → Wrapper → Result Value
  message_global_seq_num c pid m =
      let message = message_of c m in
      with_message c pid m
        (returned (if leb 4 message.version then number message.global_seq_num else nil)) raised

  abbrev pub action_value : ActionType → Value
  action_value action_auth = symbol_auth
  action_value action_notify = symbol_notify
  action_value (action_other n) = number n

  unfoldable pub message_action_type : Client → ℕ → Wrapper → Result Value
  message_action_type c pid m =
      with_message c pid m (returned (action_value (message_of c m).action_type)) raised

  abbrev pub result_value : NotifyResult → Value
  result_value (result_flags flags) = number flags
  result_value (result_auth n) =
      if n == 0 then symbol_allow else if n == 1 then symbol_deny else number n
  result_value (result_other type) = number type

  abbrev pub result_of : ActionType → NotifyResult → Value
  result_of action_notify result = result_value result
  result_of _ result = nil

  unfoldable pub message_result : Client → ℕ → Wrapper → Result Value
  message_result c pid m =
      with_message c pid m
        (returned (result_of (message_of c m).action_type (message_of c m).notify_result)) raised

  abbrev pub is_answered : AnswerState → Bool
  is_answered answered = true
  is_answered _ = false

  unfoldable pub message_answered_p : Client → ℕ → Wrapper → Result Value
  message_answered_p c pid m =
      with_message c pid m (returned (boolean (is_answered (c.queue.slots m.slot).answer_state)))
        raised

-- The object itself
unfoldable pub message_retain : Client → ℕ → Wrapper → Result Wrapper
message_retain c pid m = with_message c pid m (returned (record m { held = true })) raised

unfoldable pub message_valid_p : Client → ℕ → Wrapper → Result Value
message_valid_p c pid m =
    if not (message_owned_here c pid)
    then raised forked_client_error
    else returned (boolean m.valid)
