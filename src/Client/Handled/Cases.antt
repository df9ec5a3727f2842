-- ===== src/Client/Handled/Cases.antt =====
-- ext/endpoint_security/client.c, handle_message: each outcome of the calls it makes.
use mathlib.Core.Path.{ap₂}
use endpoint_security.Base.{
  ℕ, ◌+◌, ◌^◌, ◌<◌, ◌≡◌, ◌⊎◌, inl, inr, refl, ap, subst⁻¹, ◌∙◌, true, false, some, [], ◌∷◌, ◌++◌,
  arith, sub32, Bool-cases,
}
use endpoint_security.Slot.{Slot, pending, answered, not_auth}
use endpoint_security.Esapi.{Framework}
use endpoint_security.Queue.{write_slot, publish}
use endpoint_security.Queue.Valid.{IsValid, Blocked, claimed, pushed}
use endpoint_security.Queue.Calls.{contents, enqueue_refines}
use endpoint_security.Watchdog
use endpoint_security.Watchdog.{Watchdog}
use endpoint_security.Watchdog.Requests.{IsRing, requested, armed, arm_refines}
use endpoint_security.Client.{Client, answer_slot, deadline_fire_time}
use endpoint_security.Client.Callback.{hand_over, accept}
use endpoint_security.Client.Handled.{
  Returns, auth, with_wakeup, Dropped, place, Silent, Awaited, AnsweredNow, Queued, Carries,
}
use endpoint_security.Client.Handled.Branches.{
  kept, refused, accept_blocked, filled, placed, Claims, accept_notify, accept_auth, armed_next,
  unarmed_next, handed, pushed_state, answered_slot,
}

abbrev pub Fits : Client → Slot → Type 0
Fits c slot =
    IsValid (pushed c.queue slot)
    × (contents (pushed c.queue slot) ≡ contents c.queue ++ (slot.message ∷ []))

module _ (es : Framework) (c : Client) (native pointer now : ℕ) where
  abbrev pub Left : Client → Type 0
  Left e =
      (e.active_callbacks ≡ sub32 c.active_callbacks 1)
      × ((Blocked c.queue × Dropped es c native pointer now e) ⊎ Queued es c native pointer now e)

  pushed_fire :
      (slot : Slot)
      → ((pushed c.queue slot).slots (place es c native pointer now)).fire_at ≡ slot.fire_at
  unfolding publish
  pushed_fire slot = ground arith

  pushed-Carries :
      (slot : Slot)
      → Carries es c native pointer now slot
      → Carries es c native pointer now
          ((pushed c.queue slot).slots (place es c native pointer now))
  unfolding publish
  pushed-Carries slot (m, n, p, o, f) = (
    ground (arith, m),
    ground (arith, n),
    ground (arith, p),
    ground (arith, o),
    pushed_fire slot ∙ f,
  )

  filled-Carries : Carries es c native pointer now (filled es c native pointer now)
  unfolding deadline_fire_time
  filled-Carries = (refl, refl, ground arith, refl, refl)

  -- The part of Queued that does not depend on who answers
  queued :
      (d : Client) (slot : Slot)
      → d.queue ≡ write_slot (claimed c.queue) (place es c native pointer now) slot
      → d.notified ≡ c.notified
      → d.dropped ≡ c.dropped
      → d.active_callbacks ≡ c.active_callbacks
      → Carries es c native pointer now slot
      → Fits c slot
      → let e = hand_over d (place es c native pointer now) in
        Silent es c native pointer now e
          ⊎ (Awaited es c native pointer now e ⊎ AnsweredNow es c native pointer now e)
        → Left e
  queued d slot q n dr ac carries (valid, waits) who =
      let (q', w', dr', n', ac', calls') = handed es c native pointer now d slot q n in
      (
        ac' ∙ ap (λ a. sub32 a 1) ac,
        inr (
          subst⁻¹ IsValid q' valid,
          ap contents q' ∙ waits ∙ ap (λ x. contents c.queue ++ (x ∷ [])) carries.0,
          dr' ∙ dr,
          n',
          subst⁻¹ (λ u. Carries es c native pointer now (u.slots (place es c native pointer now)))
              q' (pushed-Carries slot carries),
          who,
        ),
      )

  module _ (eq : Claims es c native pointer now)
      (fits : (slot : Slot) → slot.position ≡ c.queue.enqueue_position → Fits c slot) where
    state_of :
        (d : Client) (slot : Slot)
        → d.queue ≡ write_slot (claimed c.queue) (place es c native pointer now) slot
        → d.notified ≡ c.notified
        → ((hand_over d (place es c native pointer now)).queue.slots
            (place es c native pointer now)).answer_state
          ≡ slot.answer_state
    state_of d slot q n =
        ap (λ u. (u.slots (place es c native pointer now)).answer_state)
          (handed es c native pointer now d slot q n).0
        ∙ pushed_state es c native pointer now slot

    filled_position : (filled es c native pointer now).position ≡ c.queue.enqueue_position
    filled_position = ground arith

    notify-Left :
        auth es c native pointer now ≡ false
        → Returns (accept es (kept es c native pointer now) native pointer now) Left
    notify-Left f =
        let slot = filled es c native pointer now in
        let d = placed es c native pointer now in
        let (q', w', dr', n', ac', calls') = handed es c native pointer now d slot refl refl in
        let state : slot.answer_state ≡ not_auth = ground (arith, f) in
        subst⁻¹ (λ r. Returns r Left) (accept_notify es c native pointer now eq f)
          (queued d slot refl refl refl refl (filled-Carries) (fits slot filled_position)
            (inl (f, state_of d slot refl refl ∙ state, w', calls')))

    filled_deadline :
        auth es c native pointer now ≡ true
        → (filled es c native pointer now).fire_at
          ≡ deadline_fire_time c now (es.message pointer).deadline
    unfolding deadline_fire_time
    filled_deadline t = rw t

    filled_pending :
        auth es c native pointer now ≡ true
        → (filled es c native pointer now).answer_state ≡ pending
    filled_pending t = rw t

    awaited-Left :
        auth es c native pointer now ≡ true
        → (let w =
              armed c.watchdog (place es c native pointer now) (filled es c native pointer now) in
            (Watchdog.arm c.watchdog
                (place es c native pointer now)
                (filled es c native pointer now)
              ≡ some (w, true))
            × IsRing w
            × (requested w
                ≡ requested c.watchdog
                  ++ (record {
                    slot = place es c native pointer now;
                    position = (filled es c native pointer now).position;
                    fire_at = (filled es c native pointer now).fire_at;
                  }
                      ∷ [])))
        → Returns (accept es (kept es c native pointer now) native pointer now) Left
    awaited-Left t (arms, ring, waits) =
        let slot = filled es c native pointer now in
        let w = armed c.watchdog (place es c native pointer now) slot in
        let d = record (placed es c native pointer now) { watchdog = w } in
        let (q', w', dr', n', ac', calls') = handed es c native pointer now d slot refl refl in
        let deadline : requested w
            ≡ requested c.watchdog
              ++ (record {
                slot = place es c native pointer now;
                position = c.queue.enqueue_position;
                fire_at = deadline_fire_time c now (es.message pointer).deadline;
              }
                  ∷ []) =
          waits
          ∙ ap₂
              (λ p f.
                requested c.watchdog
                ++ (record { slot = place es c native pointer now; position = p; fire_at = f }
                    ∷ []))
              filled_position (filled_deadline t) in
        subst⁻¹ (λ r. Returns r Left)
          (accept_auth es c native pointer now eq t ∙ armed_next es c native pointer now w arms)
          (queued d slot refl refl refl refl (filled-Carries) (fits slot filled_position) (
            inr (
              inl (
                t,
                state_of d slot refl refl ∙ filled_pending t,
                subst⁻¹ IsRing w' ring,
                ap requested w' ∙ deadline,
                calls',
              ))))

    unarmed-Left :
        auth es c native pointer now ≡ true
        → c.watchdog.enqueue_position ≡ c.watchdog.dequeue_position + c.watchdog.capacity
        → Watchdog.arm c.watchdog (place es c native pointer now) (filled es c native pointer now)
          ≡ some (c.watchdog, false)
        → Returns (accept es (kept es c native pointer now) native pointer now) Left
    unarmed-Left t full arms =
        let slot = record (filled es c native pointer now) { answer_state = answered } in
        let d = answer_slot es (placed es c native pointer now) (place es c native pointer now) in
        let (dq, dw, ddr, dn, dac, dcalls) = answered_slot es c native pointer now t in
        let (q', w', dr', n', ac', calls') = handed es c native pointer now d slot dq dn in
        subst⁻¹ (λ r. Returns r Left)
          (accept_auth es c native pointer now eq t ∙ unarmed_next es c native pointer now arms)
          (queued d slot dq dn ddr dac (filled-Carries) (fits slot filled_position) (
            inr (
              inr (
                t,
                full,
                state_of d slot dq dn,
                w' ∙ dw,
                calls' ∙ ap (with_wakeup es c native pointer now) dcalls,
              ))))

    auth-Left :
        IsRing c.watchdog
        → c.watchdog.enqueue_position < 2 ^ 61
        → auth es c native pointer now ≡ true
        → Returns (accept es (kept es c native pointer now) native pointer now) Left
    auth-Left ring few t =
        elim (arm_refines (place es c native pointer now) (filled es c native pointer now) ring
          few) [ inl (full, arms) ↦ unarmed-Left t full arms | inr arms ↦ awaited-Left t arms ]

  pub accept-Left :
      IsValid c.queue
      → c.queue.enqueue_position < 2 ^ 61
      → IsRing c.watchdog
      → c.watchdog.enqueue_position < 2 ^ 61
      → Returns (accept es (kept es c native pointer now) native pointer now) Left
  accept-Left v few ring few' = elim (enqueue_refines v few) [
    | inl (blocked, eq) ↦
        let (dropped, ac) = refused es c native pointer now in
        subst⁻¹ (λ r. Returns r Left) (accept_blocked es c native pointer now eq)
          (ac, inl (blocked, dropped))
    | inr (eq, fits) ↦ elim (Bool-cases (auth es c native pointer now)) [
      | inl t ↦ auth-Left eq fits ring few' t
      | inr f ↦ notify-Left eq fits f
    ]
  ]
