-- ===== src/Client/Samples.antt =====
-- A client with four slots, and a framework that knows one AUTH message, for the tests.
use endpoint_security.Base.{refl, true, false, some, none, arith}
use endpoint_security.Esapi.{Message, action_auth, result_other, allow, Framework}
use endpoint_security.Queue
use endpoint_security.Queue.{fresh}
use endpoint_security.Queue.Shape.{IsShape, init-IsShape}
use endpoint_security.Watchdog.Fresh.{first_watchdog}
use endpoint_security.Client.{Client, whole}
use endpoint_security.Client.Initialize.{
  Options, System, new_success, not_given, symbol_drop, new_client,
}

abbrev pub auth_message : Message
auth_message = record {
  version = 4;
  event_type = 0;
  action_type = action_auth;
  deadline = 100;
  mach_time = 1;
  seq_num = 5;
  global_seq_num = 9;
  notify_result = result_other 0;
}

abbrev pub framework : Framework
framework = record { message = λ _. auth_message; returns = λ _ _. 0 }

abbrev pub system : System
system = record {
  queue_memory = true;
  watchdog_memory = true;
  pipe_made = true;
  pipe_nonblocking = true;
  numer = 125;
  denom = 3;
  pid = 77;
  thread_created = true;
  new_client = new_success;
  native = 9;
  default_margin = whole;
}

abbrev pub options : Options
options = record {
  queue_depth = some 4;
  deadline_margin = none;
  min_margin_ns = none;
  on_full = symbol_drop;
  auth_default = not_given;
  strict_cache = false;
  strict_version = false;
  default_cache = false;
  warn_on_truncated_path = false;
}

abbrev pub sample : Client
sample = new_client system options allow (fresh 4) (first_watchdog 4)

pub four-IsShape : IsShape 4 3
unfolding Queue.init
four-IsShape = init-IsShape 4 true {q = fresh 4} refl (omega arith)
