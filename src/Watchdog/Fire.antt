-- ===== src/Watchdog/Fire.antt =====
-- ext/endpoint_security/watchdog.c, answer_due and the rounds of esrb_watchdog_main, by the watchdog
-- thread when nobody interrupts it.
use endpoint_security.Base.{ℕ, zero, suc, none, some, ltb, leb, ◌==◌, if◌then◌else◌, ◌&&◌, add64}
use endpoint_security.Esapi.{Framework}
use endpoint_security.Watchdog
use endpoint_security.Watchdog.{Entry, Watchdog}
use endpoint_security.Client.{Client, is_pending, mark_answered, send_default, notify}

module _ (es : Framework) where
  -- Entering and leaving as a reader cancel out when nobody looks in between.
  unfoldable pub answer_due : Client → Entry → Client
  answer_due c e =
      let slot = c.queue.slots e.slot in
      let answered = send_default es (mark_answered es c e.slot) slot.client slot.message in
      if slot.occupied && (slot.position == e.position) && is_pending es slot.answer_state
      then notify (record answered { timeouts = add64 answered.timeouts 1 })
      else c

  -- The `while` over the due entries; `clock` is what mach_absolute_time says in each round.
  unfoldable pub fire_loop : ℕ → (ℕ → ℕ) → Client → Client
  fire_loop zero clock c = c
  fire_loop (suc rounds) clock c =
      let w = c.watchdog in
      let rest =
        fire_loop rounds (λ i. clock (suc i))
          (answer_due (record c { watchdog = Watchdog.heap_remove w 0 }) (w.heap 0)) in
      if ltb 0 w.heap_size && leb (Watchdog.key w 0) (clock 0) then rest else c

  unfoldable pub fire : (ℕ → ℕ) → Client → Client
  unfolding fire_loop
  fire clock c = fire_loop c.watchdog.heap_size clock c

-- The `while` that moves the requests to the heap, for at most so many requests.
unfoldable pub take_requests : ℕ → Watchdog → Watchdog
take_requests zero w = w
take_requests (suc rounds) w = elim (Watchdog.request_pop w) [
  | none ↦ w
  | some (v, r) ↦ take_requests rounds (Watchdog.heap_set v r)
]

module _ (es : Framework) where
  -- A turn of the outer `while` of esrb_watchdog_main, up to the wait. The ring has no more requests
  -- than cells.
  unfoldable pub round : (ℕ → ℕ) → Client → Client
  unfolding fire take_requests
  round clock c =
      fire es clock (record c { watchdog = take_requests c.watchdog.capacity c.watchdog })
