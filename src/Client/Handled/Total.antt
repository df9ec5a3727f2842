-- ===== src/Client/Handled/Total.antt =====
-- ext/endpoint_security/client.c, handle_message: the callback as a whole.
use endpoint_security.Base.{
  ℕ, ◌^◌, ◌<◌, ◌≡◌, ◌⊎◌, inl, inr, subst⁻¹, ◌∙◌, true, false, Option, none, some, ◌&&◌, leb, ltb,
  arith, sub32, add32, Bool-cases,
}
use endpoint_security.Esapi.{Message, retain_message, event_last, Framework}
use endpoint_security.Queue.Valid.{IsValid, Blocked}
use endpoint_security.Watchdog.Requests.{IsRing}
use endpoint_security.Client.{Client, called, deadline_fire_time, record_sequence_gaps}
use endpoint_security.Client.Callback.{enter, leave, answer_at_once, accept, handle_message}
use endpoint_security.Client.Handled.{Returns, Dropped, TurnedAway, Queued}
use endpoint_security.Client.Handled.Branches.{answered_at_once, answered_running}
use endpoint_security.Client.Handled.Cases.{accept-Left}

-- record_sequence_gaps changes the numbers it keeps and the count of gaps, and nothing else.
recorded :
    (c : Client) (m : Message)
    → let d = record_sequence_gaps c m in
      d ≡ record c {
        last_global_seq = d.last_global_seq;
        seen_global_seq = d.seen_global_seq;
        last_event_seq = d.last_event_seq;
        seen_event_seq = d.seen_event_seq;
        seq_gaps = d.seq_gaps;
      }
unfolding record_sequence_gaps
recorded c m = elim (Bool-cases (leb 4 m.version)) [
  | inl t ↦ rw t
  | inr f ↦ elim (Bool-cases (leb 2 m.version && ltb m.event_type event_last)) [
    | inl t ↦ rw (f, t)
    | inr g ↦ rw (f, g)
  ]
]

module _ (es : Framework) (c : Client) (native pointer now : ℕ) where
  -- How the callback for the message at `pointer` ends
  abbrev pub Handled : Client → Type 0
  Handled e =
      (e.active_callbacks ≡ c.active_callbacks)
      × (((c.closed ≡ true) × TurnedAway es c native pointer now e)
          ⊎ ((c.closed ≡ false)
              × ((Blocked c.queue × Dropped es c native pointer now e)
                  ⊎ Queued es c native pointer now e)))

  abbrev Entered : Client → Type 0
  Entered e =
      (e.active_callbacks ≡ sub32 (add32 c.active_callbacks 1) 1)
      × ((Blocked c.queue × Dropped es c native pointer now e) ⊎ Queued es c native pointer now e)

  after_recording :
      IsValid c.queue
      → c.queue.enqueue_position < 2 ^ 61
      → IsRing c.watchdog
      → c.watchdog.enqueue_position < 2 ^ 61
      → Returns
          (accept es
            (called (record_sequence_gaps (enter c) (es.message pointer)) (retain_message pointer))
            native
            pointer
            now)
          Entered
  unfolding deadline_fire_time
  after_recording v few ring few' =
      let d = record_sequence_gaps (enter c) (es.message pointer) in
      subst⁻¹
        (λ d. Returns (accept es (called d (retain_message pointer)) native pointer now) Entered)
        (recorded (enter c) (es.message pointer))
        (accept-Left es
          (record (enter c) {
            last_global_seq = d.last_global_seq;
            seen_global_seq = d.seen_global_seq;
            last_event_seq = d.last_event_seq;
            seen_event_seq = d.seen_event_seq;
            seq_gaps = d.seq_gaps;
          })
          native pointer now v few ring few')

closed_path :
    (es : Framework) (c : Client) (native pointer now : ℕ)
    → c.closed ≡ true
    → handle_message es c native pointer now
      ≡ some (leave (answer_at_once es (enter c) native pointer))
unfolding handle_message
closed_path es c native pointer now t = rw t

open_path :
    (es : Framework) (c : Client) (native pointer now : ℕ)
    → c.closed ≡ false
    → handle_message es c native pointer now
      ≡ accept es
          (called (record_sequence_gaps (enter c) (es.message pointer)) (retain_message pointer))
          native
          pointer
          now
unfolding handle_message
open_path es c native pointer now f = rw f

map_returns :
    {P R : Client → Type 0} (r : Option Client)
    → ((e : Client) → P e → R e)
    → Returns r P
    → Returns r R
map_returns none f h = elim h [ ]
map_returns (some e) f h = f e h

-- For a client whose queue and request ring are valid, with positions below 2^61, and with fewer
-- than 2^32 callbacks running: handle_message always returns, whatever the framework answers, and
-- leaves as many callbacks running as it found. On a closed client it answers an AUTH message with
-- the default, once, and queues nothing. Without a free slot it retains the message, answers it if
-- it is an AUTH message, counts it as dropped and releases it, and the queue and the watchdog are
-- as before. Else the message waits behind all others in a valid queue, the dispatcher has been
-- woken, and the slot of an AUTH message is pending with its deadline behind all other requests of
-- the watchdog, or answered with the default, once, if the watchdog had no room. The slot names the
-- message, the client, its position and the fire time (2^64 - 1 for a NOTIFY message), and counts
-- as occupied. A NOTIFY message is never answered.
pub handle_refines :
    (es : Framework) (c : Client) (native pointer now : ℕ)
    → IsValid c.queue
    → c.queue.enqueue_position < 2 ^ 61
    → IsRing c.watchdog
    → c.watchdog.enqueue_position < 2 ^ 61
    → c.active_callbacks < 2 ^ 32
    → Returns (handle_message es c native pointer now) (Handled es c native pointer now)
unfolding handle_message
handle_refines es c native pointer now v few ring few' running =
    let back : sub32 (add32 c.active_callbacks 1) 1 ≡ c.active_callbacks = omega arith in
    elim (Bool-cases c.closed) [
      | inl t ↦
          subst⁻¹ (λ r. Returns r (Handled es c native pointer now))
            (closed_path es c native pointer now t)
            ((
              answered_running es (enter c) native pointer now ∙ back,
              inl (t, answered_at_once es (enter c) native pointer now),
            ))
      | inr f ↦
          subst⁻¹ (λ r. Returns r (Handled es c native pointer now))
            (open_path es c native pointer now f)
            (map_returns
              (accept es
                (called (record_sequence_gaps (enter c) (es.message pointer))
                  (retain_message pointer))
                native pointer now)
              (λ e (ac, left). (ac ∙ back, inr (f, left)))
              (after_recording es c native pointer now v few ring few'))
    ]
