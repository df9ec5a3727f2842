-- ===== src/Message/Tests.antt =====
-- A message that the dispatcher has taken is answered, and given back.
use endpoint_security.Base.{◌≡◌, ◌≢◌, ◌⊎◌, ◌&&◌, refl, ◌∷◌, true, false, none, arith}
use endpoint_security.Slot.{Slot, pending, answered}
use endpoint_security.Esapi.{allow, deny}
use endpoint_security.Queue.{Queue, fresh, publish}
use endpoint_security.Queue.Valid.{IsValid, pushed, pushed-IsValid, dequeued-IsValid}
use endpoint_security.Queue.Fresh.{fresh-IsValid}
use endpoint_security.Client.{Client, is_pending, flags_of, response_call, respond_slot}
use endpoint_security.Client.Samples.{framework, sample, four-IsShape}
use endpoint_security.Ruby.{returned, boolean}
use endpoint_security.Message.{message_wrap, message_release, respond_auth}
use endpoint_security.Message.Release.{IsReleased, ReturnsPair, message_release_lem}
use endpoint_security.Message.Respond.{respond_slot_once}
use endpoint_security.Message.Allow.{Permitted, Open, Sends, Refused, respond_auth-Answers_once}

abbrev filled : Slot
filled = record {
  sequence = 0;
  occupied = true;
  message = 7;
  client = 9;
  position = 0;
  fire_at = 50;
  answer_state = pending;
  readers = 0;
}

abbrev one : Queue
one = pushed (fresh 4) filled

abbrev holder : Client
holder = record sample { queue = record one { dequeue_position = 1 } }

holder-IsValid : IsValid holder.queue
unfolding publish
holder-IsValid =
    dequeued-IsValid (pushed-IsValid (fresh-IsValid 4 four-IsShape) (omega arith) filled refl refl)
      (omega arith) (omega arith)

message_release_lem_example :
    ReturnsPair
      (message_release framework holder 77 (message_wrap 0))
      (λ e w. (w.valid ≡ false) × IsReleased framework holder (message_wrap 0) 4 e)
unfolding publish
message_release_lem_example =
    message_release_lem framework holder 77 (message_wrap 0) 4 refl refl refl holder-IsValid
      (omega arith) (omega arith, omega arith, (refl, refl), refl)

respond_slot_once_example :
    let slot = holder.queue.slots 0 in
    let d = (respond_slot framework holder 0 deny 0 true).0 in
    (((holder.closed ≡ true) ⊎ (is_pending framework slot.answer_state ≡ false))
        × (respond_slot framework holder 0 deny 0 true ≡ (holder, false, none))
      ⊎ ((holder.closed ≡ false)
          × (is_pending framework slot.answer_state ≡ true)
          × (d.calls ≡ response_call framework slot.client slot.message deny 0 true ∷ holder.calls)
          × ((d.queue.slots 0).answer_state ≡ answered)))
    × (respond_slot framework d 0 allow 1 false ≡ (d, false, none))
respond_slot_once_example = respond_slot_once framework holder 0 deny allow 0 1 true false

respond_auth-Answers_once_example :
    let call = respond_auth framework (λ _. false) holder 77 (message_wrap 0) deny true in
    (Permitted framework (λ _. false) holder 77 (message_wrap 0) true
      × Open framework holder (message_wrap 0)
      × Sends framework holder (message_wrap 0) deny (flags_of deny) (true && false) call
      × ((respond_auth framework (λ _. false) call.0 77 (message_wrap 0) allow false).0 ≡ call.0))
    ⊎ (Refused framework (λ _. false) holder 77 (message_wrap 0) true
        × (call.0 ≡ holder)
        × (call.1 ≢ returned (boolean true)))
respond_auth-Answers_once_example =
    respond_auth-Answers_once framework (λ _. false) holder 77 77 (message_wrap 0) deny allow true
      false
