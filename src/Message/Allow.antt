-- ===== src/Message/Allow.antt =====
-- ext/endpoint_security/message.c, respond_auth: what allow! and deny! answer.
use native.Mathlib.Decide.{ℕ_discrete}
use endpoint_security.Base.{
  ℕ, ◌≡◌, ◌≢◌, ◌⊎◌, inl, inr, refl, ap, subst⁻¹, ◌∙◌, Bool, true, false, none, some, ◌∷◌, ◌&&◌, not,
  arith, Bool-cases,
}
use endpoint_security.Slot.{Slot, answered}
use endpoint_security.Esapi.{success, AuthResult, Call, Framework}
use endpoint_security.Client.{
  Client, is_auth, is_pending, flags_of, response_call, send_response, respond_slot,
}
use endpoint_security.Ruby.{
  non_cacheable_event_error, message_error, forked_client_error, message_invalidated_error, Result,
  raised, returned, Value, boolean,
}
use endpoint_security.Message.{
  Wrapper, message_owned_here, get_message, send, respond_auth, message_of,
}

-- What allow! and deny! check before they send
respond_auth_cases :
    (es : Framework) (cacheable : ℕ → Bool) (c : Client) (pid : ℕ) (m : Wrapper)
    (result : AuthResult) (cache : Bool)
    → let message = message_of es c m in
      let allowed = cacheable message.event_type in
      let call = respond_auth es cacheable c pid m result cache in
      ((message_owned_here c pid ≡ false) × (call ≡ (c, raised forked_client_error)))
      ⊎ (((message_owned_here c pid ≡ true)
            × (m.valid ≡ false)
            × (call ≡ (c, raised message_invalidated_error)))
          ⊎ ((message_owned_here c pid ≡ true)
              × (m.valid ≡ true)
              × (((is_auth message.action_type ≡ false) × (call ≡ (c, raised (message_error none))))
                  ⊎ (((is_auth message.action_type ≡ true)
                        × (cache ≡ true)
                        × (allowed ≡ false)
                        × (c.strict_cache ≡ true)
                        × (call ≡ (c, raised non_cacheable_event_error)))
                      ⊎ ((is_auth message.action_type ≡ true)
                          × ((cache && not allowed) && c.strict_cache ≡ false)
                          × (call ≡ send es c m result (flags_of result) (cache && allowed)))))))
unfolding respond_auth get_message
respond_auth_cases es cacheable c pid m result cache = ground arith

-- A slot that has no answer yet, of a client that is not closed
abbrev pub Open : Framework → Client → Wrapper → Type 0
Open es c m = (c.closed ≡ false) × (is_pending es (c.queue.slots m.slot).answer_state ≡ true)

module _ (es : Framework) (c : Client) (m : Wrapper) (result : AuthResult) (flags : ℕ)
    (b : Bool) where
  abbrev slot_of : Slot
  slot_of = c.queue.slots m.slot

  abbrev answer : Call
  answer = response_call es slot_of.client slot_of.message result flags b

  -- The response went out: it is the last call, the slot counts as answered, and Ruby gets
  -- true or the framework's error.
  abbrev pub Sends : Client × Result Value → Type 0
  Sends (d, r) =
      (d.calls ≡ answer ∷ c.calls)
      × ((d.queue.slots m.slot).answer_state ≡ answered)
      × (((es.returns c.calls answer ≡ success) × (r ≡ returned (boolean true)))
          ⊎ ((es.returns c.calls answer ≢ success)
              × (r ≡ raised (message_error (some (es.returns c.calls answer))))))

  send_cases :
      (Open es c m × Sends (send es c m result flags b))
      ⊎ (((c.closed ≡ true) ⊎ (is_pending es slot_of.answer_state ≡ false))
          × (send es c m result flags b ≡ (c, returned (boolean false))))
  unfolding send respond_slot send_response
  send_cases = elim (Bool-cases c.closed) [
    | inl t ↦ inr (inl t, ground (arith, t))
    | inr f ↦ elim (Bool-cases (is_pending es slot_of.answer_state)) [
      | inr g ↦ inr (inr g, ground (arith, f, g))
      | inl g ↦ inl (
        (f, g),
        (
          ground (arith, f, g),
          ground (arith, f, g),
          elim (ℕ_discrete (es.returns c.calls answer) success) [
            | yes e ↦ inl (e, ground (arith, f, g, e))
            | no e ↦ inr (e, ground (arith, f, g, e))
          ],
        ),
      )
    ]
  ]

module _ (es : Framework) (cacheable : ℕ → Bool) (c : Client) (pid : ℕ) (m : Wrapper)
    (cache : Bool) where
  abbrev allowed : Bool
  allowed = cacheable (message_of es c m).event_type

  -- The message may be answered by this process, and answered like this.
  abbrev pub Permitted : Type 0
  Permitted =
      (message_owned_here c pid ≡ true)
      × (m.valid ≡ true)
      × (is_auth (message_of es c m).action_type ≡ true)
      × ((cache && not allowed) && c.strict_cache ≡ false)

  -- A reason not to answer
  abbrev pub Refused : Type 0
  Refused =
      (message_owned_here c pid ≡ false)
      ⊎ (m.valid ≡ false)
      ⊎ (is_auth (message_of es c m).action_type ≡ false)
      ⊎ ((cache && not allowed) && c.strict_cache ≡ true)
      ⊎ (c.closed ≡ true)
      ⊎ (is_pending es (c.queue.slots m.slot).answer_state ≡ false)

module _ (es : Framework) (cacheable : ℕ → Bool) (c : Client) (pid : ℕ) (m : Wrapper)
    (result : AuthResult) (cache : Bool) where
  abbrev as_cached : Bool
  as_cached = cache && allowed es cacheable c pid m cache

  abbrev Answers : Client × Result Value → Type 0
  Answers (d, r) =
      (Permitted es cacheable c pid m cache
        × Open es c m
        × Sends es c m result (flags_of result) as_cached (d, r))
      ⊎ (Refused es cacheable c pid m cache × (d ≡ c) × (r ≢ returned (boolean true)))

  sent-Answers :
      Permitted es cacheable c pid m cache
      → respond_auth es cacheable c pid m result cache
        ≡ send es c m result (flags_of result) as_cached
      → Answers (respond_auth es cacheable c pid m result cache)
  sent-Answers may e = elim (send_cases es c m result (flags_of result) as_cached) [
    | inl (opened, sends) ↦ subst⁻¹ Answers e (inl (may, opened, sends))
    | inr (shut, nothing) ↦ subst⁻¹ Answers (e ∙ nothing) (
        inr (
          elim shut [
            | inl t ↦ inr (inr (inr (inr (inl t))))
            | inr f ↦ inr (inr (inr (inr (inr f))))
          ],
          refl,
          λ h. ground (arith, h),
        ))
  ]

  respond_auth-Answers : Answers (respond_auth es cacheable c pid m result cache)
  respond_auth-Answers = elim (respond_auth_cases es cacheable c pid m result cache) [
    | inl (other, e) ↦ subst⁻¹ Answers e (inr (inl other, refl, λ h. ground (arith, h)))
    | inr (inl (here, gone, e)) ↦
        subst⁻¹ Answers e (inr (inr (inl gone), refl, λ h. ground (arith, h)))
    | inr (inr (here, valid, inl (notify, e))) ↦
        subst⁻¹ Answers e (inr (inr (inr (inl notify)), refl, λ h. ground (arith, h)))
    | inr (inr (here, valid, inr (inl (auth, cached, not_allowed, strict, e)))) ↦
        subst⁻¹ Answers e (
          inr (
            inr (inr (inr (inl (ground (arith, cached, not_allowed, strict))))),
            refl,
            λ h. ground (arith, h),
          ))
    | inr (inr (here, valid, inr (inr (auth, may, e)))) ↦ sent-Answers (here, valid, auth, may) e
  ]

-- A slot that has its answer gets no other.
answered_kept :
    (es : Framework) (cacheable : ℕ → Bool) (c : Client) (pid : ℕ) (m : Wrapper)
    (result : AuthResult) (cache : Bool)
    → is_pending es (c.queue.slots m.slot).answer_state ≡ false
    → (respond_auth es cacheable c pid m result cache).0 ≡ c
answered_kept es cacheable c pid m result cache h =
    elim (respond_auth-Answers es cacheable c pid m result cache) [
      | inl (may, (alive, pending), sends) ↦ ground (arith, h, pending)
      | inr (refused, same, r) ↦ same
    ]

-- allow! and deny! send an answer exactly if they are called in the client's process, for a valid
-- AUTH message whose slot is pending, on a client that is not closed, and not to cache an event
-- that must not be cached with a strict client. Then one response goes out, with the result that
-- was asked for, its flags, and the cache flag only if it was asked for and the event allows it;
-- the slot counts as answered, Ruby gets true, or MessageError with the framework's code if the
-- framework refused it, and whatever allow! or deny! is called next on the message leaves the
-- client as it is. Else nothing goes out, the client is unchanged, and Ruby does not get true.
pub respond_auth-Answers_once :
    (es : Framework) (cacheable : ℕ → Bool) (c : Client) (pid pid2 : ℕ) (m : Wrapper)
    (result result2 : AuthResult) (cache cache2 : Bool)
    → let call = respond_auth es cacheable c pid m result cache in
      (Permitted es cacheable c pid m cache
        × Open es c m
        × Sends es c m result
            (flags_of result)
            (cache && cacheable (message_of es c m).event_type)
            call
        × ((respond_auth es cacheable call.0 pid2 m result2 cache2).0 ≡ call.0))
      ⊎ (Refused es cacheable c pid m cache × (call.0 ≡ c) × (call.1 ≢ returned (boolean true)))
respond_auth-Answers_once es cacheable c pid pid2 m result result2 cache cache2 =
    let call = respond_auth es cacheable c pid m result cache in
    elim (respond_auth-Answers es cacheable c pid m result cache) [
      | inl (may, opened, sends) ↦ inl (
        may,
        opened,
        sends,
        answered_kept es cacheable call.0 pid2 m result2 cache2 (ap (is_pending es) sends.1),
      )
      | inr refused ↦ inr refused
    ]
