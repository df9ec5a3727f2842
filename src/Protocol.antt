-- ===== src/Protocol.antt =====
-- Who answers an AUTH message, and who may still touch it: one slot of the ring, shared by the ES
-- handler (client.c, handle_message), the Ruby side (message.c; client.c, client_close_native) and
-- the watchdog (watchdog.c, answer_due), one atomic operation at a time. Ruby threads hold the GVL
-- through each of their calls, so they are one thread here. Memory is sequentially consistent.
-- Queue/Threads proves what is taken for granted here, that one handler at a time fills the slot
-- and that one Ruby message at a time holds it.
pub mod Invariant
pub mod Watchdog
pub mod Handler
pub mod Ruby
pub mod Exactly
pub mod Wait
mod Tests
use endpoint_security.Base.{
  ℕ, suc, ◌+◌, ◌-◌, ◌≡◌, ◌≢◌, ◌⊎◌, Bool, true, false, if◌then◌else◌, update,
}
use endpoint_security.Slot.{AnswerState, pending, answered, not_auth}

-- How far the slot's owner is: the handler from `filled` to `publishing`, nobody in `free` and
-- `published`, a Ruby message from `held` on, the closing thread in the `drain_` phases. In a
-- `_sending` phase the owner has won the answer and has not called Endpoint Security yet.
pub data Phase : Type 0 where
  free filled arming unarmed handler_sending publishing published : Phase
  held held_sending releasing release_sending release_disarm release_wait release_drop : Phase
  release_store drain_answer drain_sending drain_drop drain_disarm : Phase

-- How far client_close_native is. `closed` is set from `closing` on.
pub data Stage : Type 0 where
  opened closing stopped sweep_sending swept : Stage

-- How far answer_due is, with the position of its heap entry.
pub data Watch : Type 0 where
  resting : Watch
  seen : ℕ → Watch
  inside : ℕ → Watch
  checked : ℕ → Watch
  matched : Watch
  watch_sending : Watch
  leaving : Watch

-- The slot and its users. `generation` counts the messages that the slot has had; `auth` and
-- `answers` say of each of them whether it is an AUTH message and how often it was answered, and
-- `retained` whether the present one is still retained. These four are not in the code.
pub record State : Type 0 where
  pub phase : Phase
  pub stage : Stage
  pub watch : Watch
  pub occupied : Bool
  pub position : ℕ
  pub answer_state : AnswerState
  pub readers : ℕ
  pub generation : ℕ
  pub auth : ℕ → Bool
  pub answers : ℕ → ℕ
  pub retained : Bool

-- es_respond_auth_result or es_respond_flags_result on `slot->message`.
abbrev pub answer : State → ℕ → ℕ
answer s = update s.answers s.generation (s.answers s.generation + 1)

-- answer_due: `occupied`, `readers`, `occupied` again, the position, the compare-and-exchange, the
-- response. The entry may be of any position, also of one that the slot has left behind.
pub data WatchMove (s : State) : State → Type 0 where
  look :
      (e : ℕ)
      → s.watch ≡ resting
      → s.stage ≢ stopped
      → s.stage ≢ sweep_sending
      → s.stage ≢ swept
      → s.occupied ≡ true
      → WatchMove s (record s { watch = seen e })
  enter :
      (e : ℕ)
      → s.watch ≡ seen e
      → WatchMove s (record s { watch = inside e; readers = s.readers + 1 })
  check :
      (e : ℕ)
      → s.watch ≡ inside e
      → s.occupied ≡ true
      → WatchMove s (record s { watch = checked e })
  gone :
      (e : ℕ) → s.watch ≡ inside e → s.occupied ≡ false → WatchMove s (record s { watch = leaving })
  same : (e : ℕ) → s.watch ≡ checked e → s.position ≡ e → WatchMove s (record s { watch = matched })
  other :
      (e : ℕ) → s.watch ≡ checked e → s.position ≢ e → WatchMove s (record s { watch = leaving })
  win :
      s.watch ≡ matched
      → s.answer_state ≡ pending
      → WatchMove s (record s { watch = watch_sending; answer_state = answered })
  lose : s.watch ≡ matched → s.answer_state ≢ pending → WatchMove s (record s { watch = leaving })
  send : s.watch ≡ watch_sending → WatchMove s (record s { watch = leaving; answers = answer s })
  leave : s.watch ≡ leaving → WatchMove s (record s { watch = resting; readers = s.readers - 1 })

-- handle_message, from the slot that esrb_queue_enqueue gave it to esrb_queue_publish. A handler
-- that found the client open may still be at work when the client is being closed; once the closing
-- thread has seen no callback active, none takes a slot any more.
pub data HandlerMove (s : State) : State → Type 0 where
  begin :
      (p : ℕ) (a : Bool)
      → s.phase ≡ free
      → (s.stage ≡ opened) ⊎ (s.stage ≡ closing)
      → HandlerMove s (record s {
        phase = filled;
        position = p;
        answer_state = if a then pending else not_auth;
        generation = suc s.generation;
        auth = update s.auth (suc s.generation) a;
        retained = true;
      })
  occupy : s.phase ≡ filled → HandlerMove s (record s { phase = arming; occupied = true })
  arm : s.phase ≡ arming → HandlerMove s (record s { phase = publishing })
  arm_fails :
      s.phase ≡ arming → s.auth s.generation ≡ true → HandlerMove s (record s { phase = unarmed })
  unarmed_win :
      s.phase ≡ unarmed
      → s.answer_state ≡ pending
      → HandlerMove s (record s { phase = handler_sending; answer_state = answered })
  unarmed_lose :
      s.phase ≡ unarmed → s.answer_state ≢ pending → HandlerMove s (record s { phase = publishing })
  unarmed_send :
      s.phase ≡ handler_sending
      → HandlerMove s (record s { phase = publishing; answers = answer s })
  publish : s.phase ≡ publishing → HandlerMove s (record s { phase = published })

-- The Ruby side outside client_close_native: dequeue, `allow!` and the like, and message_release,
-- whose response is skipped when the client is closed.
pub data RubyMove (s : State) : State → Type 0 where
  dequeue : s.phase ≡ published → s.stage ≡ opened → RubyMove s (record s { phase = held })
  respond_win :
      s.phase ≡ held
      → s.stage ≡ opened
      → s.answer_state ≡ pending
      → RubyMove s (record s { phase = held_sending; answer_state = answered })
  respond_send : s.phase ≡ held_sending → RubyMove s (record s { phase = held; answers = answer s })
  release :
      s.phase ≡ held
      → (s.stage ≡ opened) ⊎ (s.stage ≡ swept)
      → RubyMove s (record s { phase = releasing })
  release_win :
      s.phase ≡ releasing
      → s.stage ≡ opened
      → s.answer_state ≡ pending
      → RubyMove s (record s { phase = release_sending; answer_state = answered })
  release_send :
      s.phase ≡ release_sending
      → RubyMove s (record s { phase = release_disarm; answers = answer s })
  release_skip :
      s.phase ≡ releasing
      → (s.stage ≡ swept) ⊎ (s.answer_state ≢ pending)
      → RubyMove s (record s { phase = release_disarm })
  disarm :
      s.phase ≡ release_disarm → RubyMove s (record s { phase = release_wait; occupied = false })
  wait : s.phase ≡ release_wait → s.readers ≡ 0 → RubyMove s (record s { phase = release_drop })
  drop : s.phase ≡ release_drop → RubyMove s (record s { phase = release_store; retained = false })
  store : s.phase ≡ release_store → s.readers ≡ 0 → RubyMove s (record s { phase = free })

-- client_close_native. The Ruby side does nothing else from `close` to `swept`; the handlers that
-- passed the test of `closed` finish first, then the watchdog stops, then the slot is answered if
-- it is occupied, and drained if it was published.
pub data CloseMove (s : State) : State → Type 0 where
  close :
      s.stage ≡ opened
      → s.phase ≢ held_sending
      → s.phase ≢ releasing
      → s.phase ≢ release_sending
      → s.phase ≢ release_disarm
      → s.phase ≢ release_wait
      → s.phase ≢ release_drop
      → s.phase ≢ release_store
      → CloseMove s (record s { stage = closing })
  stop :
      s.stage ≡ closing
      → s.watch ≡ resting
      → (s.phase ≡ free) ⊎ (s.phase ≡ published) ⊎ (s.phase ≡ held)
      → CloseMove s (record s { stage = stopped })
  sweep_win :
      s.stage ≡ stopped
      → s.occupied ≡ true
      → s.answer_state ≡ pending
      → CloseMove s (record s { stage = sweep_sending; answer_state = answered })
  sweep_send :
      s.stage ≡ sweep_sending → CloseMove s (record s { stage = swept; answers = answer s })
  sweep_skip :
      s.stage ≡ stopped
      → (s.occupied ≡ false) ⊎ (s.answer_state ≢ pending)
      → CloseMove s (record s { stage = swept })
  drain : s.stage ≡ swept → s.phase ≡ published → CloseMove s (record s { phase = drain_answer })
  drain_win :
      s.phase ≡ drain_answer
      → s.answer_state ≡ pending
      → CloseMove s (record s { phase = drain_sending; answer_state = answered })
  drain_send :
      s.phase ≡ drain_sending → CloseMove s (record s { phase = drain_drop; answers = answer s })
  drain_lose :
      s.phase ≡ drain_answer
      → s.answer_state ≢ pending
      → CloseMove s (record s { phase = drain_drop })
  drain_release :
      s.phase ≡ drain_drop → CloseMove s (record s { phase = drain_disarm; retained = false })
  drain_done :
      s.phase ≡ drain_disarm
      → s.readers ≡ 0
      → CloseMove s (record s { phase = free; occupied = false })

pub data Step (s : State) : State → Type 0 where
  by_watchdog : {t : State} → WatchMove s t → Step s t
  by_handler : {t : State} → HandlerMove s t → Step s t
  by_ruby : {t : State} → RubyMove s t → Step s t
  by_close : {t : State} → CloseMove s t → Step s t

-- A slot as esrb_queue_init leaves it.
abbrev pub start_state : State
start_state = record {
  phase = free;
  stage = opened;
  watch = resting;
  occupied = false;
  position = 0;
  answer_state = not_auth;
  readers = 0;
  generation = 0;
  auth = λ _. false;
  answers = λ _. 0;
  retained = false;
}

pub data Reach : State → Type 0 where
  start : Reach start_state
  later : {s t : State} → Reach s → Step s t → Reach t
