-- ===== src/Watchdog/Round.antt =====
-- ext/endpoint_security/watchdog.c, a turn of esrb_watchdog_main: no deadline passes unanswered.
use endpoint_security.Base.{
  ℕ, zero, suc, ◌+◌, ◌-◌, ◌^◌, ◌≤◌, ◌<◌, ◌≡◌, refl, ap, sym, subst, subst⁻¹, ◌∙◌, List, [], ◌∷◌,
  ◌++◌, arith,
}
use endpoint_security.Base.Lists.{length}
use endpoint_security.Slot.{Slot}
use endpoint_security.Esapi.{Framework}
use endpoint_security.Client.{Client}
use endpoint_security.Client.Answer.{Asked, default_call}
use endpoint_security.Watchdog.{Entry, Watchdog}
use endpoint_security.Watchdog.Fire.{take_requests, round}
use endpoint_security.Watchdog.Order.{Has}
use endpoint_security.Watchdog.Settle.{IsValid}
use endpoint_security.Watchdog.Requests.{
  IsRing, request_window, requested, armed, armed-IsRing, armed-requested,
}
use endpoint_security.Watchdog.Fresh.{first_watchdog, first-IsRing}
use endpoint_security.Queue.Shape.{IsShape}
use endpoint_security.Watchdog.Room.{InRing}
use endpoint_security.Watchdog.Take.{AreSlots, After, Taken, SameRing-IsRing, take_requests-Taken}
use endpoint_security.Watchdog.Due.{Unanswered}
use endpoint_security.Watchdog.Fired.{Fired, fire-Fired}

-- The watchdog between the turns of its thread
pub record IsSound (w : Watchdog) : Type 0 where
  pub ring : IsRing w
  pub few : w.enqueue_position < 2 ^ 61
  pub heap : IsValid w
  pub inside : InRing w
  pub slots : AreSlots w.capacity (requested w)

-- A deadline that was asked for, and not for a later one of the same slot: it waits in the request
-- ring, or is in the heap.
abbrev pub IsAsked : Watchdog → Entry → Type 0
IsAsked w = After (requested w) (Has w)

length-request_window : (w : Watchdog) (p n : ℕ) → length (request_window w p n) ≡ n
length-request_window w p zero = refl
length-request_window w p (suc n) = omega (arith, length-request_window w (suc p) n)

AreSlots-append :
    (n : ℕ) (rs : List Entry) (r : Entry) → AreSlots n rs → r.slot < n → AreSlots n (rs ++ (r ∷ []))
AreSlots-append n [] r h l = (l, tt)
AreSlots-append n (x ∷ rs) r (first, rest) l = (first, AreSlots-append n rs r rest l)

-- esrb_watchdog_init leaves a sound watchdog, and esrb_watchdog_arm keeps it sound, for a slot of
-- the ring.
pub first-IsSound : (n : ℕ) → IsShape n (n - 1) → IsSound (first_watchdog n)
first-IsSound n shape = record {
  ring = first-IsRing n shape;
  few = omega arith;
  heap = record {
    ordered = λ i p l. omega arith;
    indexed = λ i l. omega arith;
    fits = omega arith;
  };
  inside = λ i l. omega arith;
  slots = tt;
}

pub armed-IsSound :
    (w : Watchdog) (index : ℕ) (slot : Slot)
    → IsSound w
    → w.enqueue_position < w.dequeue_position + w.capacity
    → suc w.enqueue_position < 2 ^ 61
    → index < w.capacity
    → IsSound (armed w index slot)
armed-IsSound w index slot s free few l = record {
  ring = armed-IsRing s.ring s.few index slot free;
  few = few;
  heap = record { ordered = s.heap.ordered; indexed = s.heap.indexed; fits = s.heap.fits };
  inside = s.inside;
  slots =
      subst⁻¹ (AreSlots w.capacity) (armed-requested s.ring s.few index slot free)
        (AreSlots-append w.capacity (requested w) _ s.slots l);
}

-- The state after the turn
pub record Turned (es : Framework) (now until : ℕ) (c d : Client) : Type 0 where
  pub sound : IsSound d.watchdog
  pub no_requests : requested d.watchdog ≡ []
  pub due : (e : Entry) → IsAsked c.watchdog e → e.fire_at ≤ now → ¬ Unanswered d e
  pub sent :
      (e : Entry)
      → IsAsked c.watchdog e
      → e.fire_at ≤ now
      → Unanswered c e
      → Asked (default_call es c (c.queue.slots e.slot)) d.calls
  pub later :
      (e : Entry)
      → IsAsked c.watchdog e
      → until < e.fire_at
      → IsAsked d.watchdog e × (d.queue.slots e.slot ≡ c.queue.slots e.slot)
  pub left : (e : Entry) → IsAsked d.watchdog e → IsAsked c.watchdog e × (now < e.fire_at)

module _ (es : Framework) (now until : ℕ) (c d : Client) (w : Watchdog) (t : Taken c.watchdog w)
    (f : Fired es now until (record c { watchdog = w }) d) where
  turned-IsRing : IsRing d.watchdog × (requested d.watchdog ≡ [])
  turned-IsRing = let (ring, same) = SameRing-IsRing f.ring t.ring in (ring, same ∙ t.empty)

  turned_set : (e : Entry) → IsAsked d.watchdog e → Has d.watchdog e
  turned_set e =
      subst (λ rs. After rs (Has d.watchdog) e → Has d.watchdog e) (sym turned-IsRing.1) (λ h. h)

  set_turned : (e : Entry) → Has d.watchdog e → IsAsked d.watchdog e
  set_turned e =
      subst (λ rs. Has d.watchdog e → After rs (Has d.watchdog) e) (sym turned-IsRing.1) (λ h. h)

  turned : c.watchdog.enqueue_position < 2 ^ 61 → Turned es now until c d
  turned few = record {
    sound = record {
      ring = turned-IsRing.0;
      few = omega (arith, few, f.ring.enqueue_position, t.enqueue_position);
      heap = f.heap;
      inside = λ i l.
          let ((k, m, e), _) = f.left (d.watchdog.heap i) (i, l, refl) in
          omega (arith, t.inside k m, ap (λ (x : Entry). x.slot) e, f.ring.capacity);
      slots = subst⁻¹ (AreSlots d.watchdog.capacity) turned-IsRing.1 tt;
    };
    no_requests = turned-IsRing.1;
    due = λ e set. f.due e ((t.entries e).1 set);
    sent = λ e set. f.sent e ((t.entries e).1 set);
    later =
        λ e set l. let (has, same) = f.later e ((t.entries e).1 set) l in (set_turned e has, same);
    left = λ e set. let (has, l) = f.left e (turned_set e set) in ((t.entries e).0 has, l);
  }

-- One turn of the watchdog's thread on a sound watchdog (its heap and its request ring valid,
-- the ring's positions below 2^61, all entries and requests for slots of the ring), while the
-- clock goes from `now` to `until` and never back before `now`. Whatever deadline was asked
-- for (it waits in the request ring or is in the heap, and no later request for its slot
-- replaces it) and has passed by `now`: its message is not left unanswered, and if it was
-- unanswered before, the default response has been sent for it. A deadline after `until`
-- stays, and its slot as it was. Nothing else is left afterwards than deadlines after `now`
-- that were there before; the request ring is empty, and the watchdog is sound.
pub round-Turned :
    (es : Framework) (now until : ℕ) (clock : ℕ → ℕ) (c : Client)
    → IsSound c.watchdog
    → ((i : ℕ) → (now ≤ clock i) × (clock i ≤ until))
    → Turned es now until c (round es clock c)
unfolding round
round-Turned es now until clock c s times =
    let w = take_requests c.watchdog.capacity c.watchdog in
    let enough : length (requested c.watchdog) ≤ c.watchdog.capacity = omega (
      arith,
      s.ring.fits,
      length-request_window c.watchdog c.watchdog.dequeue_position
          (c.watchdog.enqueue_position - c.watchdog.dequeue_position),
    ) in
    let t =
      take_requests-Taken c.watchdog.capacity c.watchdog enough s.ring s.few s.heap s.inside
        s.slots in
    turned es now until c _ w t
      (fire-Fired es now until clock (record c { watchdog = w }) t.heap times) s.few
