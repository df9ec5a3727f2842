-- ===== src/Slot.antt =====
-- queue.h: the answer states and `esrb_slot_t`, one cell of the ring that the ES handler fills,
-- the Ruby dispatcher empties and the watchdog reads. Pointers to messages and to clients are
-- numbers; 0 is NULL. `watchdog_index`, which only the watchdog thread uses, is a table of Watchdog.
use endpoint_security.Base.{ℕ, Bool, false}

-- ESRB_ANSWER_PENDING, ESRB_ANSWER_ANSWERED, ESRB_ANSWER_NOT_AUTH
pub data AnswerState : Type 0 where
  pending answered not_auth : AnswerState

pub record Slot : Type 0 where
  pub sequence : ℕ
  pub occupied : Bool
  pub message : ℕ
  pub client : ℕ
  pub position : ℕ
  pub fire_at : ℕ
  pub answer_state : AnswerState
  pub readers : ℕ

-- What `calloc` and the loop of esrb_queue_init leave in the slot at `index`.
abbrev pub fresh_slot : ℕ → Slot
fresh_slot index = record {
  sequence = index;
  occupied = false;
  message = 0;
  client = 0;
  position = 0;
  fire_at = 0;
  answer_state = not_auth;
  readers = 0;
}
