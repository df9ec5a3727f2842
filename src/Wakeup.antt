-- ===== src/Wakeup.antt =====
-- ext/endpoint_security/client.c, esrb_notify and client_drain: how the dispatcher is woken. Any
-- number of threads put messages into the ring and notify (handle_message), or only notify (the
-- watchdog, closing, `wake`), and one dispatcher waits for the pipe and drains, interleaved in any
-- order. A step is one load, store, exchange or system call; memory is sequentially consistent.
pub mod Invariant
pub mod Awake
mod Tests
use endpoint_security.Base.{ℕ, zero, suc, ◌+◌, ◌≤◌, ◌<◌, ◌≡◌, Bool, true, false, update}

-- A thread that may notify: outside, filling the slot of a position that it has claimed, before the
-- compare-and-exchange of esrb_notify with a published message or without one, before its `write`.
pub data Notifier : Type 0 where
  idle : Notifier
  filling : ℕ → Notifier
  notifying : ℕ → Notifier
  nudging : Notifier
  writing : Notifier

-- The dispatcher: waiting for the pipe, taking slots, before its store to `notified`, before its look at
-- the depth, before the compare-and-exchange of esrb_notify, before its `write`.
pub data Dispatcher : Type 0 where
  waiting taking storing looking rearming rewriting : Dispatcher

-- `pipe` counts the bytes in the pipe; `published` says of a position whether its slot is published.
pub record State : Type 0 where
  pub notified : Bool
  pub pipe : ℕ
  pub enqueue_position : ℕ
  pub dequeue_position : ℕ
  pub published : ℕ → Bool
  pub thread : ℕ → Notifier
  pub dispatcher : Dispatcher

-- A pipe that is full takes no byte.
pub data Written (room : ℕ) : ℕ → ℕ → Type 0 where
  one_more : {n m : ℕ} → n < room → m ≡ suc n → Written room n m
  full : {n m : ℕ} → room ≤ n → m ≡ n → Written room n m

-- A step of thread `t`
pub data ThreadMove (room : ℕ) (t : ℕ) (s : State) : State → Type 0 where
  claim :
      s.thread t ≡ idle
      → ThreadMove room t s (record s {
        enqueue_position = suc s.enqueue_position;
        thread = update s.thread t (filling s.enqueue_position);
      })
  publish :
      (p : ℕ)
      → s.thread t ≡ filling p
      → ThreadMove room t s (record s {
        published = update s.published p true;
        thread = update s.thread t (notifying p);
      })
  nudge : s.thread t ≡ idle → ThreadMove room t s (record s { thread = update s.thread t nudging })
  win :
      (p : ℕ)
      → s.thread t ≡ notifying p
      → s.notified ≡ false
      → ThreadMove room t s (record s { notified = true; thread = update s.thread t writing })
  lose :
      (p : ℕ)
      → s.thread t ≡ notifying p
      → s.notified ≡ true
      → ThreadMove room t s (record s { thread = update s.thread t idle })
  nudge_win :
      s.thread t ≡ nudging
      → s.notified ≡ false
      → ThreadMove room t s (record s { notified = true; thread = update s.thread t writing })
  nudge_lose :
      s.thread t ≡ nudging
      → s.notified ≡ true
      → ThreadMove room t s (record s { thread = update s.thread t idle })
  write :
      (n : ℕ)
      → s.thread t ≡ writing
      → Written room s.pipe n
      → ThreadMove room t s (record s { pipe = n; thread = update s.thread t idle })

-- A step of the dispatcher. It may also stop waiting without a byte, since the wait has a timeout.
-- It stops taking slots when it has its maximum or finds none published.
pub data DispatcherMove (room : ℕ) (s : State) : State → Type 0 where
  read : s.dispatcher ≡ waiting → DispatcherMove room s (record s { pipe = 0; dispatcher = taking })
  take :
      s.dispatcher ≡ taking
      → s.dequeue_position < s.enqueue_position
      → s.published s.dequeue_position ≡ true
      → DispatcherMove room s (record s { dequeue_position = suc s.dequeue_position })
  stop : s.dispatcher ≡ taking → DispatcherMove room s (record s { dispatcher = storing })
  store :
      s.dispatcher ≡ storing
      → DispatcherMove room s (record s { notified = false; dispatcher = looking })
  look_empty :
      s.dispatcher ≡ looking
      → s.enqueue_position ≡ s.dequeue_position
      → DispatcherMove room s (record s { dispatcher = waiting })
  look_more :
      s.dispatcher ≡ looking
      → s.dequeue_position < s.enqueue_position
      → DispatcherMove room s (record s { dispatcher = rearming })
  rearm_win :
      s.dispatcher ≡ rearming
      → s.notified ≡ false
      → DispatcherMove room s (record s { notified = true; dispatcher = rewriting })
  rearm_lose :
      s.dispatcher ≡ rearming
      → s.notified ≡ true
      → DispatcherMove room s (record s { dispatcher = waiting })
  rewrite :
      (n : ℕ)
      → s.dispatcher ≡ rewriting
      → Written room s.pipe n
      → DispatcherMove room s (record s { pipe = n; dispatcher = waiting })

pub data Step (room : ℕ) (s t : State) : Type 0 where
  by_thread : (n : ℕ) → ThreadMove room n s t → Step room s t
  by_dispatcher : DispatcherMove room s t → Step room s t

-- client_initialize
abbrev pub start_state : State
start_state = record {
  notified = false;
  pipe = 0;
  enqueue_position = 0;
  dequeue_position = 0;
  published = λ _. false;
  thread = λ _. idle;
  dispatcher = waiting;
}

pub data Reach (room : ℕ) : State → Type 0 where
  start : Reach room start_state
  later : {s t : State} → Reach room s → Step room s t → Reach room t
