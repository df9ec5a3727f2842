-- ===== src/Message/Respond.antt =====
-- ext/endpoint_security/message.c and client.c: esrb_respond_slot, asked more than once.
use endpoint_security.Base.{
  ℕ, ◌≡◌, ◌⊎◌, inl, inr, ap, subst⁻¹, Bool, true, false, none, ◌∷◌, arith, Bool-cases,
}
use endpoint_security.Slot.{answered}
use endpoint_security.Esapi.{AuthResult, Framework}
use endpoint_security.Client.{Client, is_pending, response_call, send_response, respond_slot}

module _ (es : Framework) (c : Client) (index : ℕ) where
  not_sent :
      (r : AuthResult) (f : ℕ) (b : Bool)
      → (c.closed ≡ true) ⊎ (is_pending es (c.queue.slots index).answer_state ≡ false)
      → respond_slot es c index r f b ≡ (c, false, none)
  unfolding respond_slot
  not_sent r f b (inl t) = ground (arith, t)
  not_sent r f b (inr t) = ground (arith, t)

  refused_twice :
      (r : AuthResult) (f : ℕ) (b : Bool) (r2 : AuthResult) (f2 : ℕ) (b2 : Bool)
      → (c.closed ≡ true) ⊎ (is_pending es (c.queue.slots index).answer_state ≡ false)
      → let d = (respond_slot es c index r f b).0 in
        respond_slot es d index r2 f2 b2 ≡ (d, false, none)
  refused_twice r f b r2 f2 b2 h =
      subst⁻¹ (λ d. respond_slot es d index r2 f2 b2 ≡ (d, false, none))
        (ap (λ x. x.0) (not_sent r f b h)) (not_sent r2 f2 b2 h)

  sent_once :
      (r : AuthResult) (f : ℕ) (b : Bool)
      → c.closed ≡ false
      → is_pending es (c.queue.slots index).answer_state ≡ true
      → let slot = c.queue.slots index in
        let d = (respond_slot es c index r f b).0 in
        (d.calls ≡ response_call es slot.client slot.message r f b ∷ c.calls)
        × ((d.queue.slots index).answer_state ≡ answered)
  unfolding respond_slot send_response
  sent_once r f b o t = (ground (arith, o, t), ground (arith, o, t))

-- esrb_respond_slot, asked to answer the slot at `index` and then asked again, by anybody and with
-- any answer. If the client is closed or the slot is not pending, the first call changes nothing,
-- sends nothing and returns false; else it sends exactly one response, the one it was asked for,
-- to the slot's client and message. The second call changes nothing, sends nothing and returns
-- false.
pub respond_slot_once :
    (es : Framework) (c : Client) (index : ℕ) (r1 r2 : AuthResult) (f1 f2 : ℕ) (b1 b2 : Bool)
    → let slot = c.queue.slots index in
      let d = (respond_slot es c index r1 f1 b1).0 in
      (((c.closed ≡ true) ⊎ (is_pending es slot.answer_state ≡ false))
          × (respond_slot es c index r1 f1 b1 ≡ (c, false, none))
        ⊎ ((c.closed ≡ false)
            × (is_pending es slot.answer_state ≡ true)
            × (d.calls ≡ response_call es slot.client slot.message r1 f1 b1 ∷ c.calls)
            × ((d.queue.slots index).answer_state ≡ answered)))
      × (respond_slot es d index r2 f2 b2 ≡ (d, false, none))
respond_slot_once es c index r1 r2 f1 f2 b1 b2 = elim (Bool-cases c.closed) [
  | inl t ↦ (
    inl (inl t, not_sent es c index r1 f1 b1 (inl t)),
    refused_twice es c index r1 f1 b1 r2 f2 b2 (inl t),
  )
  | inr f ↦ elim (Bool-cases (is_pending es (c.queue.slots index).answer_state)) [
    | inr g ↦ (
      inl (inr g, not_sent es c index r1 f1 b1 (inr g)),
      refused_twice es c index r1 f1 b1 r2 f2 b2 (inr g),
    )
    | inl t ↦
        let (calls, state) = sent_once es c index r1 f1 b1 f t in
        (
          inr (f, t, calls, state),
          not_sent es (respond_slot es c index r1 f1 b1).0 index r2 f2 b2
              (inr (ap (is_pending es) state)),
        )
  ]
]
