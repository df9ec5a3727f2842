-- ===== src/Client/Initialize.antt =====
-- ext/endpoint_security/client.c, client_initialize: the options, what is acquired and in which order,
-- and what every failure gives back. What the operating system and the framework answer, and the
-- options that Ruby passes, are arguments.
pub mod Complete
use endpoint_security.Base.{
  ℕ, ◌+◌, ◌*◌, ◌/◌, ◌%◌, ◌^◌, ◌<◌, ◌≤◌, ◌≡◌, ◌≢◌, ◌⊎◌, inl, inr, refl, Bool, true, false, not,
  Option, none, some, List, [], ltb, ◌==◌, if◌then◌else◌, arith, u64_max,
}
use endpoint_security.Esapi.{AuthResult, allow, deny}
use endpoint_security.Queue
use endpoint_security.Queue.{Queue}
use endpoint_security.Watchdog
use endpoint_security.Watchdog.{Watchdog}
use endpoint_security.Client.{Client, Margin}
use endpoint_security.Ruby.{
  Error, argument_error, type_error, no_memory_error, system_call_error, runtime_error,
  invalid_argument_error, not_entitled_error, not_permitted_error, not_privileged_error,
  too_many_clients_error, internal_error, Result, raised, returned,
}

-- A Ruby value where a Symbol is wanted
pub data Choice : Type 0 where
  not_given symbol_allow symbol_deny symbol_drop symbol_respond_default other_symbol no_symbol :
      Choice

-- A double, with what `isfinite` and the comparisons with 0.0 and 1.0 say of it.
pub record MarginValue : Type 0 where
  pub in_range : Bool
  pub margin : Margin

pub record Options : Type 0 where
  pub queue_depth : Option ℕ
  pub deadline_margin : Option MarginValue
  pub min_margin_ns : Option ℕ
  pub on_full : Choice
  pub auth_default : Choice
  pub strict_cache : Bool
  pub strict_version : Bool
  pub default_cache : Bool
  pub warn_on_truncated_path : Bool

-- es_new_client_result_t
pub data NewClientResult : Type 0 where
  new_success err_invalid_argument err_internal err_not_entitled err_not_permitted
        err_not_privileged err_too_many_clients :
      NewClientResult

-- What the operating system and the framework answer: memory, pipe(), fcntl(), the timebase, getpid(),
-- pthread_create() and es_new_client().
pub record System : Type 0 where
  pub queue_memory : Bool
  pub watchdog_memory : Bool
  pub pipe_made : Bool
  pub pipe_nonblocking : Bool
  pub numer : ℕ
  pub denom : ℕ
  pub pid : ℕ
  pub thread_created : Bool
  pub new_client : NewClientResult
  pub native : ℕ
  pub default_margin : Margin

-- What the process holds for the client: the ring, the watchdog's arrays, the pipe, the thread.
pub record Held : Type 0 where
  pub ring : Bool
  pub heap : Bool
  pub pipe : Bool
  pub thread : Bool

abbrev pub nothing : Held
nothing = record { ring = false; heap = false; pipe = false; thread = false }

-- raise_new_client_error
abbrev pub new_client_error : NewClientResult → Error
new_client_error err_invalid_argument = invalid_argument_error
new_client_error err_not_entitled = not_entitled_error
new_client_error err_not_permitted = not_permitted_error
new_client_error err_not_privileged = not_privileged_error
new_client_error err_too_many_clients = too_many_clients_error
new_client_error _ = internal_error

abbrev pub default_of {ℓ} : {A : Type ℓ} → A → Option A → A
default_of d none = d
default_of d (some x) = x

abbrev pub margin_value : Margin → Option MarginValue → Margin
margin_value d none = d
margin_value d (some v) = v.margin

abbrev pub margin_fits : Option MarginValue → Bool
margin_fits none = true
margin_fits (some v) = v.in_range

abbrev pub check_on_full : Choice → Option Error
check_on_full not_given = none
check_on_full symbol_drop = none
check_on_full symbol_respond_default = none
check_on_full no_symbol = some type_error
check_on_full _ = some argument_error

abbrev pub auth_of : Choice → Result AuthResult
auth_of not_given = returned allow
auth_of symbol_allow = returned allow
auth_of symbol_deny = returned deny
auth_of no_symbol = raised type_error
auth_of _ = raised argument_error

-- `min_margin_ns > UINT64_MAX / info.denom ? UINT64_MAX : min_margin_ns * info.denom / info.numer`
unfoldable pub margin_ticks : ℕ → ℕ → ℕ → ℕ
margin_ticks denom numer nanoseconds =
    if ltb (u64_max / denom) nanoseconds then u64_max else nanoseconds * denom % 2 ^ 64 / numer

abbrev pub new_client : System → Options → AuthResult → Queue → Watchdog → Client
new_client s o auth queue watchdog = record {
  client = s.native;
  queue = queue;
  watchdog = watchdog;
  watchdog_thread_started = true;
  watchdog_running = true;
  watchdog_stopped = false;
  delete_ready = false;
  notified = false;
  closed = false;
  active_callbacks = 0;
  dropped = 0;
  delivered = 0;
  timeouts = 0;
  response_errors = 0;
  delete_errors = 0;
  errors = 0;
  seq_gaps = 0;
  leaked_messages = 0;
  last_global_seq = 0;
  seen_global_seq = false;
  last_event_seq = λ _. 0;
  seen_event_seq = λ _. false;
  default_auth = auth;
  default_cache = o.default_cache;
  strict_cache = o.strict_cache;
  strict_version = o.strict_version;
  warn_on_truncated_path = o.warn_on_truncated_path;
  deadline_margin = margin_value s.default_margin o.deadline_margin;
  min_margin_ticks = margin_ticks s.denom s.numer (default_of 5000000 o.min_margin_ns);
  owner_pid = s.pid;
  calls = [];
}

-- esrb_queue_destroy, esrb_watchdog_destroy, `close` on both ends, pthread_join
abbrev pub destroy_queue : Held → Held
destroy_queue h = record h { ring = false }

abbrev pub destroy_watchdog : Held → Held
destroy_watchdog h = record h { heap = false }

abbrev pub close_pipe : Held → Held
close_pipe h = record h { pipe = false }

abbrev pub join_thread : Held → Held
join_thread h = record h { thread = false }

-- The answer of es_new_client, once the native thread has it
abbrev pub after_new_client : NewClientResult → Held → Client → Held × Result Client
after_new_client new_success h c = (h, returned c)
after_new_client err h c =
    (destroy_queue (destroy_watchdog (close_pipe (join_thread h))), raised (new_client_error err))

-- From esrb_watchdog_init on: each failure closes and destroys what came before it.
unfoldable pub acquire :
    System → Options → AuthResult → Held → Queue → Option Watchdog → Held × Result Client
acquire s o auth h queue none = (destroy_queue h, raised no_memory_error)
acquire s o auth h queue (some watchdog) =
    let h1 = record h { heap = true } in
    let h2 = record h1 { pipe = true } in
    let h3 = record h2 { thread = true } in
    if not s.pipe_made
    then (destroy_queue (destroy_watchdog h1), raised system_call_error)
    else if not s.pipe_nonblocking
    then (destroy_queue (destroy_watchdog (close_pipe h2)), raised system_call_error)
    else if not s.thread_created
    then (destroy_queue (destroy_watchdog (close_pipe h2)), raised runtime_error)
    else after_new_client s.new_client h3 (new_client s o auth queue watchdog)

-- From esrb_queue_init on
unfoldable pub build : System → Options → AuthResult → Option Queue → Held × Result Client
unfolding acquire
build s o auth none = (nothing, raised argument_error)
build s o auth (some queue) =
    acquire s o auth (record nothing { ring = true }) queue
      (Watchdog.init queue.capacity s.watchdog_memory)

unfoldable pub with_auth : System → Options → Result AuthResult → Held × Result Client
unfolding build
with_auth s o (raised e) = (nothing, raised e)
with_auth s o (returned auth) =
    if margin_fits o.deadline_margin
    then build s o auth (Queue.init (default_of 8192 o.queue_depth) s.queue_memory)
    else (nothing, raised argument_error)

unfoldable pub with_on_full : System → Options → Option Error → Held × Result Client
unfolding with_auth
with_on_full s o (some e) = (nothing, raised e)
with_on_full s o none = with_auth s o (auth_of o.auth_default)

unfoldable pub initialize : System → Options → Held × Result Client
unfolding with_on_full
initialize s o = with_on_full s o (check_on_full o.on_full)
