-- ===== src/Watchdog/Due.antt =====
-- ext/endpoint_security/watchdog.c, answer_due: what the deadline of one entry does.
use endpoint_security.Base.{
  ℕ, ◌≡◌, ◌≢◌, inl, inr, refl, subst⁻¹, Bool, true, ◌∷◌, ◌&&◌, ◌==◌, if◌then◌else◌, if-both, arith,
}
use endpoint_security.Slot.{pending}
use endpoint_security.Esapi.{Call, write_wakeup, Framework}
use endpoint_security.Client.{Client, is_pending, send_response, send_default, notify}
use endpoint_security.Client.Answer.{Asked, default_call}
use endpoint_security.Watchdog.{Entry}
use endpoint_security.Watchdog.Fire.{answer_due}

-- The slot still holds the message that the entry is for, and nobody has answered it.
abbrev pub Unanswered : Client → Entry → Type 0
Unanswered c e =
    ((c.queue.slots e.slot).occupied ≡ true)
    × ((c.queue.slots e.slot).position ≡ e.position)
    × ((c.queue.slots e.slot).answer_state ≡ pending)

module _ (es : Framework) (c : Client) (e : Entry) where
  abbrev is_due : Bool
  is_due =
      let slot = c.queue.slots e.slot in
      slot.occupied && (slot.position == e.position) && is_pending es slot.answer_state

  pub due_watchdog : (answer_due es c e).watchdog ≡ c.watchdog
  unfolding answer_due notify send_default send_response
  due_watchdog = ground arith

  pub due_others : (s : ℕ) → e.slot ≢ s → (answer_due es c e).queue.slots s ≡ c.queue.slots s
  unfolding answer_due notify send_default send_response
  due_others s ne = ground arith

  pub due_answered : ¬ Unanswered (answer_due es c e) e
  unfolding answer_due notify send_default send_response
  due_answered (o, p, a) = ground arith

-- The rest of what answer_due leaves
module _ (es : Framework) (c : Client) (e : Entry) where
  pub due_calls : (answer_due es c e).calls ≡ (
      if is_due es c e
      then (if c.notified
          then default_call es c (c.queue.slots e.slot) ∷ c.calls
          else write_wakeup ∷ default_call es c (c.queue.slots e.slot) ∷ c.calls)
      else c.calls)
  unfolding answer_due notify send_default send_response
  due_calls = ground arith

  pub due_grows : (x : Call) → Asked x c.calls → Asked x (answer_due es c e).calls
  due_grows x h = subst⁻¹ (Asked x) due_calls (
      if-both (Asked x) (is_due es c e) _ _ (if-both (Asked x) c.notified _ _ (inr h) (inr (inr h)))
        h)

  pub due_sent :
      Unanswered c e → Asked (default_call es c (c.queue.slots e.slot)) (answer_due es c e).calls
  due_sent (o, p, a) =
      let call = default_call es c (c.queue.slots e.slot) in
      let due : is_due es c e ≡ true = ground (arith, o, p, a) in
      subst⁻¹ (Asked call) due_calls
        (rw due (if-both (Asked call) c.notified _ _ (inl refl) (inr (inl refl))))

  pub due_defaults :
      ((answer_due es c e).default_auth ≡ c.default_auth)
      × ((answer_due es c e).default_cache ≡ c.default_cache)
  unfolding answer_due notify send_default send_response
  due_defaults = ground arith
