-- ===== src/Watchdog/Take.antt =====
-- ext/endpoint_security/watchdog.c, the loop of esrb_watchdog_main that moves the requests to the heap.
use endpoint_security.Base.{
  ℕ, zero, suc, ◌-◌, ◌^◌, ◌≤◌, ◌<◌, ◌≡◌, ◌≢◌, ◌⊎◌, ◌↔◌, inl, inr, refl, ap, subst, subst⁻¹, ◌∙◌,
  List, [], ◌∷◌, some, none, arith,
}
use endpoint_security.Base.Lists.{length}
use endpoint_security.Watchdog.{Request, Entry, Watchdog, entry_of, heap_set, request_pop}
use endpoint_security.Watchdog.Fire.{take_requests}
use endpoint_security.Watchdog.Order.{Has}
use endpoint_security.Watchdog.Settle.{IsValid}
use endpoint_security.Watchdog.Set.{Requested}
use endpoint_security.Watchdog.Requests.{
  IsRing, request_of, request_window, requested, popped, pop_refines,
}
use endpoint_security.Watchdog.Ring.{SameRing, heap_set-SameRing}
use endpoint_security.Watchdog.Room.{InRing, heap_set-Requested_in}

-- What SameRing says, as one equation
abbrev with_heap_of : Watchdog → Watchdog → Watchdog
with_heap_of w u = record w {
  heap = u.heap;
  heap_size = u.heap_size;
  watchdog_index = u.watchdog_index;
}

same_ring : (w u : Watchdog) → SameRing w u → u ≡ with_heap_of w u
same_ring w u h = ground (arith, h)

with_heap-IsRing : (w u : Watchdog) → IsRing w → IsRing (with_heap_of w u)
with_heap-IsRing w u v = record {
  shape = v.shape;
  ordered = v.ordered;
  fits = v.fits;
  waiting = v.waiting;
  vacant = v.vacant;
}

with_heap-window :
    (w u : Watchdog) (p n : ℕ) → request_window (with_heap_of w u) p n ≡ request_window w p n
with_heap-window w u p zero = refl
with_heap-window w u p (suc n) =
    ap (λ xs. entry_of (request_of w p) ∷ xs) (with_heap-window w u (suc p) n)

pub SameRing-IsRing :
    {w u : Watchdog} → SameRing w u → IsRing w → IsRing u × (requested u ≡ requested w)
SameRing-IsRing {w} {u} h v =
    subst⁻¹ (λ x. IsRing x × (requested x ≡ requested w)) (same_ring w u h)
      (
        with_heap-IsRing w u v,
        with_heap-window w u w.dequeue_position (w.enqueue_position - w.dequeue_position),
      )

-- The entries after a list of requests, each of which replaces the entry of its slot.
abbrev pub After : List Entry → (Entry → Type 0) → Entry → Type 0
After [] entries e = entries e
After (r ∷ rs) entries e = After rs (λ x. (x ≡ r) ⊎ (entries x × (x.slot ≢ r.slot))) e

-- Every request is for a slot of the ring.
abbrev pub AreSlots : ℕ → List Entry → Type 0
AreSlots capacity [] = Unit {0}
AreSlots capacity (r ∷ rs) = (r.slot < capacity) × AreSlots capacity rs

After-map :
    (rs : List Entry) {A B : Entry → Type 0}
    → ((x : Entry) → A x ↔ B x)
    → (e : Entry) → After rs A e ↔ After rs B e
After-map [] f e = f e
After-map (r ∷ rs) f e =
    After-map rs
      (λ x. (
        (λ h. elim h [ inl same ↦ inl same | inr (a, ne) ↦ inr ((f x).0 a, ne) ]),
        (λ h. elim h [ inl same ↦ inl same | inr (b, ne) ↦ inr ((f x).1 b, ne) ]),
      ))
      e

Requested-Has :
    (w u : Watchdog) (r : Request)
    → Requested w r u
    → (x : Entry) → Has u x ↔ ((x ≡ entry_of r) ⊎ (Has w x × (x.slot ≢ r.slot)))
Requested-Has w u r done x = (
  (λ h. done.rest x h),
  (λ h. elim h [
    | inl same ↦ subst⁻¹ (Has u) same done.has_request
    | inr (h, ne) ↦ done.others x h ne
  ]),
)

-- The requests are gone, and the heap has what they asked for.
pub record Taken (w u : Watchdog) : Type 0 where
  pub ring : IsRing u
  pub empty : requested u ≡ []
  pub heap : IsValid u
  pub inside : InRing u
  pub entries : (e : Entry) → Has u e ↔ After (requested w) (Has w) e
  pub capacity : u.capacity ≡ w.capacity
  pub enqueue_position : u.enqueue_position ≡ w.enqueue_position

take_step :
    (w : Watchdog) (r : Request) (rounds : ℕ)
    → request_pop w ≡ some (popped w, r)
    → take_requests (suc rounds) w ≡ take_requests rounds (heap_set (popped w) r)
unfolding take_requests
take_step w r rounds e = rw (take_requests, e)

take_stop : (w : Watchdog) (rounds : ℕ) → request_pop w ≡ none → take_requests rounds w ≡ w
unfolding take_requests
take_stop w zero e = refl
take_stop w (suc rounds) e = rw (take_requests, e)

popped-IsValid : {w : Watchdog} → IsValid w → IsValid (popped w)
popped-IsValid v = record { ordered = v.ordered; indexed = v.indexed; fits = v.fits }

stopped-Taken : (w : Watchdog) → IsRing w → requested w ≡ [] → IsValid w → InRing w → Taken w w
stopped-Taken w ring empty heap inside = record {
  ring = ring;
  empty = empty;
  heap = heap;
  inside = inside;
  entries = λ e. subst⁻¹ (λ rs. Has w e ↔ After rs (Has w) e) empty (λ h. h, λ h. h);
  capacity = refl;
  enqueue_position = refl;
}

-- One request, and what the rest of the rounds does after it
module _ (w : Watchdog) (ring : IsRing w) (heap : IsValid w) (inside : InRing w)
    (next : IsRing (popped w)) where
  abbrev pub after_one : Watchdog
  after_one = heap_set (popped w) (request_of w w.dequeue_position)

  one-SameRing : SameRing (popped w) after_one
  one-SameRing = heap_set-SameRing (popped w) (request_of w w.dequeue_position)

  one-IsRing : IsRing after_one × (requested after_one ≡ requested (popped w))
  one-IsRing = SameRing-IsRing one-SameRing next

  one-Taken :
      (u : Watchdog)
      → requested w ≡ entry_of (request_of w w.dequeue_position) ∷ requested (popped w)
      → Requested (popped w) (request_of w w.dequeue_position) after_one
      → Taken after_one u
      → Taken w u
  one-Taken u eq done rest = record {
    ring = rest.ring;
    empty = rest.empty;
    heap = rest.heap;
    inside = rest.inside;
    entries = λ e.
        let same : After (requested after_one) (Has after_one) e ↔ After (requested w) (Has w) e =
          subst⁻¹ (λ rs. After (requested after_one) (Has after_one) e ↔ After rs (Has w) e) eq
            (subst⁻¹
              (λ rs.
                After rs (Has after_one) e
                ↔ After (requested (popped w))
                    (λ x.
                      (x ≡ entry_of (request_of w w.dequeue_position))
                      ⊎ (Has w x × (x.slot ≢ (request_of w w.dequeue_position).slot)))
                    e)
              one-IsRing.1
              (After-map (requested (popped w))
                (Requested-Has (popped w) after_one (request_of w w.dequeue_position) done) e)) in
        (λ h. same.0 ((rest.entries e).0 h), λ h. (rest.entries e).1 (same.1 h));
    capacity = rest.capacity ∙ one-SameRing.capacity;
    enqueue_position = rest.enqueue_position ∙ one-SameRing.enqueue_position;
  }

-- For a valid heap and a valid request ring with its positions below 2^61, whose entries and
-- requests are of slots of the ring: so many rounds as the ring has cells take every request. The
-- ring is empty then, so the loop has ended; the heap is valid, and each slot has the deadline that
-- was requested last, or else the one that it had.
pub take_requests-Taken :
    (rounds : ℕ) (w : Watchdog)
    → length (requested w) ≤ rounds
    → IsRing w
    → w.enqueue_position < 2 ^ 61
    → IsValid w
    → InRing w
    → AreSlots w.capacity (requested w)
    → Taken w (take_requests rounds w)
take_requests-Taken zero w enough ring few heap inside slots = elim (pop_refines ring few) [
  | inl (empty, nothing) ↦
      subst⁻¹ (Taken w) (take_stop w zero nothing) (stopped-Taken w ring empty heap inside)
  | inr (pops, next, eq) ↦ absurd (omega (arith, ap length eq))
]
take_requests-Taken (suc rounds) w enough ring few heap inside slots = elim (pop_refines ring few) [
  | inl (empty, nothing) ↦
      subst⁻¹ (Taken w) (take_stop w (suc rounds) nothing) (stopped-Taken w ring empty heap inside)
  | inr (pops, next, eq) ↦
      let r = request_of w w.dequeue_position in
      let (first, others) = subst (AreSlots w.capacity) eq slots in
      let (done, inside') = heap_set-Requested_in (popped w) r (popped-IsValid heap) inside first in
      let same = one-SameRing w ring heap inside next in
      let (ring', left) = one-IsRing w ring heap inside next in
      let rest =
        take_requests-Taken rounds (heap_set (popped w) r)
          (omega (arith, ap length eq, ap length left)) ring' (omega (arith, same.enqueue_position))
          done.valid inside'
          (subst⁻¹ (λ n. AreSlots n (requested (heap_set (popped w) r))) same.capacity
            (subst⁻¹ (AreSlots w.capacity) left others)) in
      subst⁻¹ (Taken w) (take_step w r rounds pops)
        (one-Taken w ring heap inside next _ eq done rest)
]
