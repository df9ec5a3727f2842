-- ===== src/Client/Handled/Branches.antt =====
-- ext/endpoint_security/client.c, handle_message: what each way out of the callback leaves.
use endpoint_security.Base.{
  ℕ, ◌≡◌, inl, inr, ap, ◌∙◌, fun_ext, true, false, none, some, ◌∷◌, arith, sub32, Bool-cases,
}
use endpoint_security.Slot.{Slot, answered}
use endpoint_security.Esapi.{retain_message, Framework}
use endpoint_security.Queue
use endpoint_security.Queue.{Queue, index_of, write_slot, publish}
use endpoint_security.Queue.Valid.{claimed, pushed}
use endpoint_security.Watchdog
use endpoint_security.Watchdog.{Watchdog}
use endpoint_security.Client.{
  Client, called, send_response, send_default, answer_slot, notify, deadline_fire_time,
}
use endpoint_security.Client.Callback.{
  filled_slot, leave, hand_over, answer_at_once, refuse, arm_or_answer, deliver, accept,
}
use endpoint_security.Client.Handled.{auth, default_call, with_wakeup, Dropped, TurnedAway, place}

write_twice :
    (q : Queue) (index : ℕ) (s t : Slot)
    → write_slot (write_slot q index s) index t ≡ write_slot q index t
write_twice q index s t = ap (λ f. record q { slots = f }) (fun_ext (λ j. ground arith))

module _ (es : Framework) (c : Client) (native pointer now : ℕ) where
  -- The client once the callback has retained the message
  abbrev pub kept : Client
  kept = called c (retain_message pointer)

  pub answered_at_once :
      TurnedAway es c native pointer now (leave (answer_at_once es c native pointer))
  unfolding send_default send_response
  answered_at_once = elim (Bool-cases (auth es c native pointer now)) [
    | inl t ↦ (ground arith, ground arith, ground arith, ground arith)
    | inr f ↦ (ground arith, ground arith, ground arith, ground arith)
  ]

  pub answered_running :
      (leave (answer_at_once es c native pointer)).active_callbacks ≡ sub32 c.active_callbacks 1
  unfolding send_default send_response
  answered_running = ground arith

  pub refused :
      Dropped es c native pointer now (refuse es kept native pointer)
      × ((refuse es kept native pointer).active_callbacks ≡ sub32 c.active_callbacks 1)
  unfolding refuse send_default send_response
  refused = ground arith

  pub accept_blocked :
      Queue.enqueue c.queue ≡ some (c.queue, none)
      → accept es kept native pointer now ≡ some (refuse es kept native pointer)
  unfolding accept
  accept_blocked eq = rw (accept, eq)

  -- The slot that the callback fills, before it is published
  abbrev pub filled : Slot
  filled =
      filled_slot kept ((claimed c.queue).slots (place es c native pointer now)) native pointer
        (es.message pointer) now

  abbrev pub placed : Client
  placed = record kept {
    queue = write_slot (claimed c.queue) (place es c native pointer now) filled;
  }

  abbrev pub Claims : Type 0
  Claims = Queue.enqueue c.queue ≡ some (claimed c.queue, some (place es c native pointer now))

  pub accept_notify :
      Claims
      → auth es c native pointer now ≡ false
      → accept es kept native pointer now ≡ some (hand_over placed (place es c native pointer now))
  unfolding accept deliver
  accept_notify eq f = rw (accept, eq, deliver, f)

  pub accept_auth :
      Claims
      → auth es c native pointer now ≡ true
      → accept es kept native pointer now
        ≡ arm_or_answer es placed (place es c native pointer now) filled
  unfolding accept deliver deadline_fire_time
  accept_auth eq t = rw (accept, eq, deliver, t)

  pub armed_next :
      (w : Watchdog)
      → Watchdog.arm c.watchdog (place es c native pointer now) filled ≡ some (w, true)
      → arm_or_answer es placed (place es c native pointer now) filled
        ≡ some (hand_over (record placed { watchdog = w }) (place es c native pointer now))
  unfolding arm_or_answer
  armed_next w arms = rw (arm_or_answer, arms)

  pub unarmed_next :
      Watchdog.arm c.watchdog (place es c native pointer now) filled ≡ some (c.watchdog, false)
      → arm_or_answer es placed (place es c native pointer now) filled
        ≡ some (
            hand_over
              (answer_slot es placed (place es c native pointer now))
              (place es c native pointer now))
  unfolding arm_or_answer
  unarmed_next arms = rw (arm_or_answer, arms)

  -- What handing over leaves, for a slot of the claimed position
  pub handed :
      (d : Client) (slot : Slot)
      → d.queue ≡ write_slot (claimed c.queue) (place es c native pointer now) slot
      → d.notified ≡ c.notified
      → let e = hand_over d (place es c native pointer now) in
        (e.queue ≡ pushed c.queue slot)
        × (e.watchdog ≡ d.watchdog)
        × (e.dropped ≡ d.dropped)
        × (e.notified ≡ true)
        × (e.active_callbacks ≡ sub32 d.active_callbacks 1)
        × (e.calls ≡ with_wakeup es c native pointer now d.calls)
  unfolding hand_over notify
  handed d slot q n = ground (arith, q, n)

  pub pushed_state :
      (slot : Slot)
      → ((pushed c.queue slot).slots (place es c native pointer now)).answer_state
        ≡ slot.answer_state
  unfolding publish
  pushed_state slot = ground arith

  answered_queue :
      auth es c native pointer now ≡ true
      → (answer_slot es placed (place es c native pointer now)).queue
        ≡ write_slot placed.queue
            (place es c native pointer now)
            (record filled { answer_state = answered })
  unfolding answer_slot send_default send_response
  answered_queue t = ground (arith, t)

  -- Answering the slot before it is published writes it once more.
  pub answered_slot :
      let d = answer_slot es placed (place es c native pointer now) in
      auth es c native pointer now ≡ true
      → (d.queue
          ≡ write_slot
              (claimed c.queue)
              (place es c native pointer now)
              (record filled { answer_state = answered }))
        × (d.watchdog ≡ c.watchdog)
        × (d.dropped ≡ c.dropped)
        × (d.notified ≡ c.notified)
        × (d.active_callbacks ≡ c.active_callbacks)
        × (d.calls ≡ default_call es c native pointer now ∷ retain_message pointer ∷ c.calls)
  unfolding answer_slot send_default send_response
  answered_slot t = (
    answered_queue t
        ∙ write_twice (claimed c.queue) (place es c native pointer now) filled
            (record filled { answer_state = answered }),
    ground (arith, t),
    ground (arith, t),
    ground (arith, t),
    ground (arith, t),
    ground (arith, t),
  )
