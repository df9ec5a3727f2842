-- ===== src/Client/Answer.antt =====
-- ext/endpoint_security/client.c, client_answer_slot: the default answer to one slot.
use endpoint_security.Base.{
  ℕ, ◌≡◌, ◌≢◌, ◌⊎◌, inl, inr, List, [], ◌∷◌, if◌then◌else◌, Bool-cases, arith,
}
use endpoint_security.Slot.{Slot, pending}
use endpoint_security.Esapi.{Call, Framework}
use endpoint_security.Queue.Answered.{Answered}
use endpoint_security.Client.{
  Client, flags_of, response_call, is_pending, send_response, send_default, answer_slot,
}

-- A call that was made
abbrev pub Asked : Call → List Call → Type 0
Asked x [] = ⊥
Asked x (y ∷ calls) = (x ≡ y) ⊎ Asked x calls

-- The default response to the message in a slot
abbrev pub default_call : Framework → Client → Slot → Call
default_call es c slot =
    response_call es slot.client slot.message c.default_auth (flags_of c.default_auth)
      c.default_cache

module _ (es : Framework) (c : Client) (index : ℕ) where
  pub answer-Answered : Answered c.queue (answer_slot es c index).queue
  unfolding answer_slot send_default send_response
  answer-Answered = record {
    same = elim (Bool-cases (is_pending es (c.queue.slots index).answer_state)) [
      | inl t ↦ rw t
      | inr f ↦ rw f
    ];
    kept = λ i. ground arith;
    only = λ i h. ground arith;
  }

  pub answer_none_pending : ((answer_slot es c index).queue.slots index).answer_state ≢ pending
  unfolding answer_slot send_default send_response
  answer_none_pending h = ground arith

  pub answer_calls : (answer_slot es c index).calls ≡ (
      if is_pending es (c.queue.slots index).answer_state
      then default_call es c (c.queue.slots index) ∷ c.calls
      else c.calls)
  unfolding answer_slot send_default send_response
  answer_calls = ground arith
