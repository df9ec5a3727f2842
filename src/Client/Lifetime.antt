-- ===== src/Client/Lifetime.antt =====
-- ext/endpoint_security/client.c: the Ruby object around a client, from client_allocate to
-- client_free, and its methods that close and wake. `pid` is what getpid() says; `none` stands for
-- a close that would go on waiting.
pub mod Freed
use endpoint_security.Base.{
  ℕ, List, [], Bool, true, false, ◌||◌, ◌&&◌, not, Option, none, some, ◌==◌, if◌then◌else◌,
}
use endpoint_security.Esapi.{allow, Framework}
use endpoint_security.Queue.{fresh}
use endpoint_security.Watchdog.Fresh.{first_watchdog}
use endpoint_security.Client.{Client, fraction, notify}
use endpoint_security.Client.Access.{get_client, get_open_client}
use endpoint_security.Client.Close.{close_native}
use endpoint_security.Client.Initialize.{
  Held, destroy_queue, destroy_watchdog, close_pipe, join_thread,
}
use endpoint_security.Ruby.{
  Error, forked_client_error, client_error, Result, raised, returned, Value, nil, boolean,
}

-- client_allocate: zeros everywhere, no ring and no watchdog, and closed
abbrev pub client_allocate : Client
client_allocate = record {
  client = 0;
  queue = fresh 0;
  watchdog = first_watchdog 0;
  watchdog_thread_started = false;
  watchdog_running = false;
  watchdog_stopped = false;
  delete_ready = false;
  notified = false;
  closed = true;
  active_callbacks = 0;
  dropped = 0;
  delivered = 0;
  timeouts = 0;
  response_errors = 0;
  delete_errors = 0;
  errors = 0;
  seq_gaps = 0;
  leaked_messages = 0;
  last_global_seq = 0;
  seen_global_seq = false;
  last_event_seq = λ _. 0;
  seen_event_seq = λ _. false;
  default_auth = allow;
  default_cache = false;
  strict_cache = false;
  strict_version = false;
  warn_on_truncated_path = false;
  deadline_margin = fraction (λ _. 0);
  min_margin_ticks = 0;
  owner_pid = 0;
  calls = [];
}

-- `owned_here` of client_free: an object that was never initialized has the pid 0.
abbrev pub owned_here : Client → ℕ → Bool
owned_here c pid = (c.owner_pid == 0) || (c.owner_pid == pid)

-- What client_free does with the client of another process
abbrev pub abandoned : Client → Client
abandoned c = record c { client = 0; watchdog_running = false; closed = true }

-- client_close
unfoldable pub client_close : Framework → Client → ℕ → Option (Client × Result Value)
unfolding get_client close_native
client_close es c pid = elim (get_client c pid) [
  | raised e ↦ some (c, raised e)
  | returned d ↦ elim (close_native es d) [
    | none ↦ none
    | some closed ↦ some (closed, returned nil)
  ]
]

-- client_closed_p
unfoldable pub client_closed_p : Client → ℕ → Result Value
unfolding get_client
client_closed_p c pid = elim (get_client c pid) [
  | raised e ↦ raised e
  | returned d ↦ returned (boolean d.closed)
]

-- client_wake
unfoldable pub client_wake : Client → ℕ → Client × Result Value
unfolding get_client notify
client_wake c pid = elim (get_client c pid) [
  | raised e ↦ (c, raised e)
  | returned d ↦ (notify d, returned nil)
]

-- esrb_watchdog_abandon frees the arrays, but does not destroy the mutex and the condition.
abbrev pub abandon_watchdog : Held → Held
abandon_watchdog h = record h { heap = false }

-- pthread_join in client_close_native, where it takes back `watchdog_thread_started`
abbrev pub joined : Client → Client → Held → Held
joined c d h =
    if c.watchdog_thread_started && not d.watchdog_thread_started then join_thread h else h

-- client_free, of a client for which the process holds `h`; an end of the pipe that was not made is -1.
unfoldable pub client_free : Framework → Client → ℕ → Held → Option (Client × Held)
unfolding close_native
client_free es c pid h =
    let closed : Option (Client × Held) = elim (close_native es c) [
      | none ↦ none
      | some d ↦ some (d, close_pipe (destroy_watchdog (destroy_queue (joined c d h))))
    ] in
    if owned_here c pid
    then closed
    else some (abandoned c, close_pipe (abandon_watchdog (destroy_queue h)))
