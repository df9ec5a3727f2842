-- ===== src/Esapi.antt =====
-- What the extension sees of Apple's Endpoint Security framework, which is not part of the
-- repository: messages as read-only data, and the calls that the extension makes. The framework is
-- a parameter, `Framework`: which message a pointer leads to, and what it answers to a response.
use endpoint_security.Base.{ℕ, Bool, List}

-- es_auth_result_t
pub data AuthResult : Type 0 where
  allow deny : AuthResult

-- es_action_type_t; the extension passes any other value on as a number.
pub data ActionType : Type 0 where
  action_auth action_notify : ActionType
  action_other : ℕ → ActionType

-- The `result` of a NOTIFY message, by its `result_type`.
pub data NotifyResult : Type 0 where
  result_flags : ℕ → NotifyResult
  result_auth : ℕ → NotifyResult
  result_other : ℕ → NotifyResult

-- The fields of es_message_t that the extension reads, but for its views of the event data.
pub record Message : Type 0 where
  pub version : ℕ
  pub event_type : ℕ
  pub action_type : ActionType
  pub deadline : ℕ
  pub mach_time : ℕ
  pub seq_num : ℕ
  pub global_seq_num : ℕ
  pub notify_result : NotifyResult

-- ES_EVENT_TYPE_AUTH_OPEN and ES_EVENT_TYPE_LAST
abbrev pub event_auth_open : ℕ
event_auth_open = 1

abbrev pub event_last : ℕ
event_last = 157

-- ES_RESPOND_RESULT_SUCCESS, ES_RETURN_SUCCESS
abbrev pub success : ℕ
success = 0

-- A call of the framework, or a byte written to the wakeup pipe.
pub data Call : Type 0 where
  respond_flags : (client message flags : ℕ) (cache : Bool) → Call
  respond_auth : (client message : ℕ) (result : AuthResult) (cache : Bool) → Call
  retain_message : ℕ → Call
  release_message : ℕ → Call
  unsubscribe_all : ℕ → Call
  delete_client : ℕ → Call
  write_wakeup : Call
  mute_path_call unmute_path_call : (client path type : ℕ) → Call
  mute_path_events_call unmute_path_events_call : (client path type : ℕ) (events : List ℕ) → Call
  mute_process_call unmute_process_call : (client : ℕ) (token : List ℕ) → Call
  mute_process_events_call unmute_process_events_call : (client : ℕ) (token events : List ℕ) → Call
  unmute_all_target_paths unmute_all_paths : (client : ℕ) → Call
  invert_muting_call muting_inverted_call : (client type : ℕ) → Call
  clear_cache_call : (client : ℕ) → Call
  subscribe_call unsubscribe_call : (client : ℕ) (events : List ℕ) → Call
  muted_paths_call release_muted_paths_call : (client : ℕ) → Call
  muted_processes_call release_muted_processes_call : (client : ℕ) → Call
  subscriptions_call free_subscriptions : (client : ℕ) → Call

-- `message` follows a pointer, and `returns` is what a call returns after the calls before it, the
-- latest first.
pub record Framework : Type 0 where
  pub message : ℕ → Message
  pub returns : List Call → Call → ℕ
