-- ===== src/Protocol/Invariant.antt =====
-- What holds of the slot in every reachable state of the protocol.
use endpoint_security.Base.{ℕ, ◌+◌, ◌≡◌, ◌≢◌, ◌<◌, Bool, true, false}
use endpoint_security.Slot.{AnswerState, pending, answered, not_auth}
use endpoint_security.Protocol.{
  Phase, free, filled, arming, unarmed, handler_sending, publishing, published, held, held_sending,
  release_sending, release_disarm, release_wait, release_drop, release_store, drain_answer,
  drain_sending, drain_drop, drain_disarm, Stage, opened, closing, sweep_sending, swept, Watch,
  resting, seen, checked, matched, watch_sending, State,
}

abbrev pub occupied_in : Phase → Bool
occupied_in free = false
occupied_in filled = false
occupied_in release_wait = false
occupied_in release_drop = false
occupied_in release_store = false
occupied_in _ = true

abbrev pub retained_in : Phase → Bool
retained_in free = false
retained_in release_store = false
retained_in drain_disarm = false
retained_in _ = true

-- The phases in which a reader that has passed its checks may still be at work.
abbrev pub guarded_in : Phase → Bool
guarded_in free = false
guarded_in filled = false
guarded_in release_drop = false
guarded_in release_store = false
guarded_in drain_answer = false
guarded_in drain_sending = false
guarded_in drain_drop = false
guarded_in drain_disarm = false
guarded_in _ = true

abbrev pub draining : Phase → Bool
draining drain_answer = true
draining drain_sending = true
draining drain_drop = true
draining drain_disarm = true
draining _ = false

-- The answer is no longer open.
abbrev pub settled_in : Phase → Bool
settled_in free = true
settled_in release_sending = true
settled_in release_disarm = true
settled_in release_wait = true
settled_in release_drop = true
settled_in release_store = true
settled_in drain_sending = true
settled_in drain_drop = true
settled_in drain_disarm = true
settled_in _ = false

abbrev pub at_rest : Phase → Bool
at_rest free = true
at_rest published = true
at_rest held = true
at_rest _ = false

abbrev pub handler_in : Phase → Bool
handler_in filled = true
handler_in arming = true
handler_in unarmed = true
handler_in handler_sending = true
handler_in publishing = true
handler_in _ = false

abbrev pub readers_in : Watch → ℕ
readers_in resting = 0
readers_in (seen e) = 0
readers_in _ = 1

abbrev pub watching : Watch → Bool
watching (checked e) = true
watching matched = true
watching watch_sending = true
watching _ = false

-- How many threads have won the answer and not sent it.
abbrev pub phase_sends : Phase → ℕ
phase_sends handler_sending = 1
phase_sends held_sending = 1
phase_sends release_sending = 1
phase_sends drain_sending = 1
phase_sends _ = 0

abbrev pub watch_sends : Watch → ℕ
watch_sends watch_sending = 1
watch_sends _ = 0

abbrev pub stage_sends : Stage → ℕ
stage_sends sweep_sending = 1
stage_sends _ = 0

abbrev pub sends : State → ℕ
sends s = phase_sends s.phase + watch_sends s.watch + stage_sends s.stage

abbrev pub watchdog_runs : Stage → Bool
watchdog_runs opened = true
watchdog_runs closing = true
watchdog_runs _ = false

abbrev pub is_swept : Stage → Bool
is_swept swept = true
is_swept _ = false

abbrev pub won : AnswerState → ℕ
won answered = 1
won _ = 0

abbrev pub is_auth : AnswerState → Bool
is_auth not_auth = false
is_auth _ = true

abbrev pub bit : Bool → ℕ
bit true = 1
bit false = 0

-- The flags follow the phases, and each won answer is sent once.
pub record IsSound (s : State) : Type 0 where
  pub occupied_iff : s.occupied ≡ occupied_in s.phase
  pub retained_iff : s.retained ≡ retained_in s.phase
  pub counted : s.readers ≡ readers_in s.watch
  pub guarded : watching s.watch ≡ true → guarded_in s.phase ≡ true
  pub rested : watchdog_runs s.stage ≡ false → s.watch ≡ resting
  pub drained : draining s.phase ≡ true → s.stage ≡ swept
  pub handled : handler_in s.phase ≡ true → watchdog_runs s.stage ≡ true
  pub paused : watchdog_runs s.stage ≡ false → is_swept s.stage ≡ false → at_rest s.phase ≡ true
  pub tally : s.answers s.generation + sends s ≡ won s.answer_state
  pub kind : s.auth s.generation ≡ is_auth s.answer_state
  pub settled : settled_in s.phase ≡ true → s.answer_state ≢ pending
  pub swept_answered : s.stage ≡ sweep_sending → s.answer_state ≢ pending
  pub sweeping : s.stage ≡ sweep_sending → s.occupied ≡ true
  pub closed_answered : s.stage ≡ swept → s.answer_state ≢ pending

-- The messages before the present one were answered once each if they were AUTH messages, and not
-- at all otherwise; those to come have not been answered.
pub record History (s : State) : Type 0 where
  pub past : (g : ℕ) → g < s.generation → s.answers g ≡ bit (s.auth g)
  pub future : (g : ℕ) → s.generation < g → s.answers g ≡ 0
