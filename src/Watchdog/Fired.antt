-- ===== src/Watchdog/Fired.antt =====
-- ext/endpoint_security/watchdog.c, the loop of esrb_watchdog_main over the entries that are due.
use endpoint_security.Base.{
  ℕ, zero, suc, ◌≤◌, ◌<◌, ◌≡◌, ◌≢◌, inl, inr, refl, ap, sym, subst, subst⁻¹, ◌∙◌, true, ltb, leb,
  ◌&&◌, Bool-cases, arith,
}
use endpoint_security.Slot.{Slot, pending}
use endpoint_security.Esapi.{Call, Framework}
use endpoint_security.Client.{Client}
use endpoint_security.Client.Answer.{Asked, default_call}
use endpoint_security.Watchdog.{Entry, Watchdog, key, heap_remove}
use endpoint_security.Watchdog.Fire.{answer_due, fire_loop, fire}
use endpoint_security.Watchdog.Order.{Has, root-le}
use endpoint_security.Watchdog.Settle.{IsValid}
use endpoint_security.Watchdog.Remove.{Removed, heap_remove-Removed}
use endpoint_security.Watchdog.Ring.{SameRing, heap_remove-SameRing, SameRing-trans}
use endpoint_security.Watchdog.Due.{
  Unanswered, due_watchdog, due_others, due_answered, due_grows, due_sent, due_defaults,
}

-- What is left of `c` after the entries that were due between `now` and `until` have fired
pub record Fired (es : Framework) (now until : ℕ) (c d : Client) : Type 0 where
  pub heap : IsValid d.watchdog
  pub ring : SameRing c.watchdog d.watchdog
  pub due : (e : Entry) → Has c.watchdog e → e.fire_at ≤ now → ¬ Unanswered d e
  pub sent :
      (e : Entry)
      → Has c.watchdog e
      → e.fire_at ≤ now
      → Unanswered c e
      → Asked (default_call es c (c.queue.slots e.slot)) d.calls
  pub grows : (x : Call) → Asked x c.calls → Asked x d.calls
  pub later :
      (e : Entry)
      → Has c.watchdog e
      → until < e.fire_at
      → Has d.watchdog e × (d.queue.slots e.slot ≡ c.queue.slots e.slot)
  pub left : (e : Entry) → Has d.watchdog e → Has c.watchdog e × (now < e.fire_at)
  pub others :
      (s : ℕ) → ((e : Entry) → Has c.watchdog e → e.slot ≢ s) → d.queue.slots s ≡ c.queue.slots s

-- The client after the root has fired
abbrev popped : Framework → Client → Client
popped es c = answer_due es (record c { watchdog = heap_remove c.watchdog 0 }) (c.watchdog.heap 0)

module _ (es : Framework) (now until : ℕ) (c d : Client) (v : IsValid c.watchdog)
    (some_left : 0 < c.watchdog.heap_size) (early : key c.watchdog 0 ≤ until)
    (rest : Fired es now until (popped es c) d) where
  abbrev root : Entry
  root = c.watchdog.heap 0

  removed : Removed c.watchdog 0 (popped es c).watchdog
  removed =
      subst⁻¹ (Removed c.watchdog 0)
        (due_watchdog es (record c { watchdog = heap_remove c.watchdog 0 }) root)
        (heap_remove-Removed c.watchdog 0 v some_left)

  -- The root's slot is in the heap no more, so it stays as the root left it.
  root_settled : d.queue.slots root.slot ≡ (popped es c).queue.slots root.slot
  root_settled = rest.others root.slot (λ e h. (removed.rest e h).1)

  step_due : (e : Entry) → Has c.watchdog e → e.fire_at ≤ now → ¬ Unanswered d e
  step_due e h l u = elim (removed.others e h) [
    | inl is_root ↦
        due_answered es (record c { watchdog = heap_remove c.watchdog 0 }) root
          (subst
            (λ (s : Slot).
              (s.occupied ≡ true) × (s.position ≡ root.position) × (s.answer_state ≡ pending))
            root_settled (subst (Unanswered d) is_root u))
    | inr stays ↦ rest.due e stays l u
  ]

  step_sent :
      (e : Entry)
      → Has c.watchdog e
      → e.fire_at ≤ now
      → Unanswered c e
      → Asked (default_call es c (c.queue.slots e.slot)) d.calls
  step_sent e h l u = elim (removed.others e h) [
    | inl is_root ↦
        subst⁻¹ (λ (x : Entry). Asked (default_call es c (c.queue.slots x.slot)) d.calls) is_root
          (rest.grows _ (
            due_sent es (record c { watchdog = heap_remove c.watchdog 0 }) root
              (subst (Unanswered c) is_root u)))
    | inr stays ↦
        let b = record c { watchdog = heap_remove c.watchdog 0 } in
        let same = due_others es b root e.slot (λ eq. (removed.rest e stays).1 (sym eq)) in
        let (auth, cache) = due_defaults es b root in
        let call : default_call es (popped es c) ((popped es c).queue.slots e.slot)
            ≡ default_call es c (c.queue.slots e.slot) =
          rw (same, auth, cache) in
        subst (λ x. Asked x d.calls) call
          (rest.sent e stays l (
            subst⁻¹
              (λ (s : Slot).
                (s.occupied ≡ true) × (s.position ≡ e.position) × (s.answer_state ≡ pending))
              same u))
  ]

  step_later :
      (e : Entry)
      → Has c.watchdog e
      → until < e.fire_at
      → Has d.watchdog e × (d.queue.slots e.slot ≡ c.queue.slots e.slot)
  step_later e h l = elim (removed.others e h) [
    | inl is_root ↦ absurd (omega (arith, ap (λ (x : Entry). x.fire_at) is_root))
    | inr stays ↦
        let (kept, same) = rest.later e stays l in
        (
          kept,
          same
              ∙ due_others es (record c { watchdog = heap_remove c.watchdog 0 }) root e.slot
                  (λ eq. (removed.rest e stays).1 (sym eq)),
        )
  ]

  step-Fired : Fired es now until c d
  step-Fired = record {
    heap = rest.heap;
    ring = SameRing-trans (heap_remove-SameRing c.watchdog 0) (
        subst (λ w. SameRing w d.watchdog)
          (due_watchdog es (record c { watchdog = heap_remove c.watchdog 0 }) root) rest.ring);
    due = step_due;
    sent = step_sent;
    grows = λ x h.
        rest.grows x (due_grows es (record c { watchdog = heap_remove c.watchdog 0 }) root x h);
    later = step_later;
    left = λ e h. let (stays, l) = rest.left e h in ((removed.rest e stays).0, l);
    others = λ s away.
        rest.others s (λ e h. away e (removed.rest e h).0)
        ∙ due_others es (record c { watchdog = heap_remove c.watchdog 0 }) root s
            (away root (0, some_left, refl));
  }

-- Nothing is due at the time `t`, which is no earlier than `now`.
stopped-Fired :
    (es : Framework) (now until t : ℕ) (c : Client)
    → IsValid c.watchdog
    → now ≤ t
    → (0 < c.watchdog.heap_size → t < key c.watchdog 0)
    → Fired es now until c c
stopped-Fired es now until t c v l none_due = record {
  heap = v;
  ring = ground arith;
  due = λ e h due u. absurd (omega (arith, after e h));
  sent = λ e h due u. absurd (omega (arith, after e h));
  grows = λ x h. h;
  later = λ e h later. (h, refl);
  left = λ e h. (h, omega (arith, after e h));
  others = λ s away. refl;
}
  where
    after : (e : Entry) → Has c.watchdog e → t < e.fire_at
    after e (i, inside, same) = omega (
      arith,
      none_due (omega arith),
      root-le c.watchdog v.ordered i i (omega arith) inside,
      ap (λ (x : Entry). x.fire_at) same,
    )

fire_loop-Fired :
    (rounds : ℕ) (es : Framework) (now until : ℕ) (clock : ℕ → ℕ) (c : Client)
    → c.watchdog.heap_size ≤ rounds
    → IsValid c.watchdog
    → ((i : ℕ) → (now ≤ clock i) × (clock i ≤ until))
    → Fired es now until c (fire_loop es rounds clock c)
unfolding fire_loop
fire_loop-Fired zero es now until clock c enough v times =
    stopped-Fired es now until now c v (omega arith) (λ some_left. absurd (omega arith))
fire_loop-Fired (suc rounds) es now until clock c enough v times =
    elim (Bool-cases (ltb 0 c.watchdog.heap_size && leb (key c.watchdog 0) (clock 0))) [
      | inr stop ↦
          rw stop (
            stopped-Fired es now until (clock 0) c v (times 0).0
              (λ some_left. ground (arith, stop)))
      | inl go ↦
          let some_left : 0 < c.watchdog.heap_size = ground (arith, go) in
          let due : key c.watchdog 0 ≤ clock 0 = ground (arith, go) in
          let smaller = heap_remove-Removed c.watchdog 0 v some_left in
          let same =
            due_watchdog es (record c { watchdog = heap_remove c.watchdog 0 })
              (c.watchdog.heap 0) in
          rw go (
            step-Fired es now until c _ v some_left (omega (arith, (times 0).1)) (
              fire_loop-Fired rounds es now until (λ i. clock (suc i)) (popped es c)
                (omega (arith, smaller.smaller, ap (λ (w : Watchdog). w.heap_size) same))
                (subst⁻¹ IsValid same smaller.valid) (λ i. times (suc i))))
    ]

-- One round of the watchdog over a valid heap, while the clock goes from `now` to `until` and never
-- back before `now`: as many turns as the heap has entries are enough to fire every entry that is
-- due. No message with an entry that was due at `now` is left unanswered. An entry that is not due
-- by `until` stays, and so does its slot; so does every slot without an entry. The entries that are
-- left are due after `now`, and the heap is valid.
pub fire-Fired :
    (es : Framework) (now until : ℕ) (clock : ℕ → ℕ) (c : Client)
    → IsValid c.watchdog
    → ((i : ℕ) → (now ≤ clock i) × (clock i ≤ until))
    → Fired es now until c (fire es clock c)
unfolding fire
fire-Fired es now until clock c v times =
    fire_loop-Fired c.watchdog.heap_size es now until clock c (omega arith) v times
