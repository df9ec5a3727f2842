-- ===== src/Watchdog/Set.antt =====
-- heap_set: the heap stays a heap, and has the requested deadline for the slot.
use native.Mathlib.Decide.{ℕ_discrete}
use endpoint_security.Base.{
  ℕ, ◌+◌, ◌<◌, ◌≡◌, ◌≢◌, ◌⊎◌, inl, inr, ◌||◌, ◌==◌, not, leb, true, false, arith, Bool-cases,
  update, update_self, Bool,
}
use endpoint_security.Watchdog.{
  Entry, Request, Watchdog, store_entry, entry_of, heap_place, heap_set,
}
use endpoint_security.Watchdog.Order.{Indexed, Around, Has}
use endpoint_security.Watchdog.Down.{Sunk}
use endpoint_security.Watchdog.Settle.{IsValid, settle}

-- The heap has the request's deadline for its slot, and every other slot's as before.
pub record Requested (w : Watchdog) (r : Request) (u : Watchdog) : Type 0 where
  pub valid : IsValid u
  pub has_request : Has u (entry_of r)
  pub others : (e : Entry) → Has w e → e.slot ≢ r.slot → Has u e
  pub rest : (e : Entry) → Has u e → (e ≡ entry_of r) ⊎ (Has w e × (e.slot ≢ r.slot))

-- The heap has an entry of the slot.
abbrev pub Known : Watchdog → Request → Type 0
Known w r = (i : ℕ) × (i < w.heap_size) × ((w.heap i).slot ≡ r.slot)

-- The entry is stored at `index` of `b`; rising and sinking put it in its place.
place-Sunk :
    (b : Watchdog) (index : ℕ) (r : Request)
    → index < b.heap_size
    → Indexed (store_entry b index (entry_of r))
    → Around (store_entry b index (entry_of r)) index
    → Sunk (store_entry b index (entry_of r)) (heap_place b index r)
place-Sunk b index r l ix a =
    rw (update_self b.heap index (entry_of r)) at
      (settle (store_entry b index (entry_of r)) index l ix a)

abbrev is_new : Watchdog → Request → Bool
is_new w r =
    leb w.heap_size (w.watchdog_index r.slot)
    || not ((w.heap (w.watchdog_index r.slot)).slot == r.slot)

abbrev grown : Watchdog → Request → Watchdog
grown w r = record w {
  heap_size = w.heap_size + 1;
  watchdog_index = update w.watchdog_index r.slot w.heap_size;
}

module _ (w : Watchdog) (r : Request) (v : IsValid w) where
  abbrev known_index : ℕ
  known_index = w.watchdog_index r.slot

  -- A slot that the heap knows: its entry is replaced in place.
  replace-Requested : is_new w r ≡ false → Requested w r (heap_place w known_index r)
  replace-Requested known = record {
    valid = record {
      ordered = s.ordered;
      indexed = s.indexed;
      fits = omega (arith, v.fits, s.kept.same_size, s.kept.same_capacity);
    };
    has_request = s.kept.keeps _ (known_index, inside, update_self w.heap known_index (entry_of r));
    others = λ e (i, l, p) ne. s.kept.keeps e (i, l, ground (arith, here));
    rest = λ e h. split e (s.kept.adds_none e h);
  }
    where
      inside : known_index < w.heap_size
      inside = ground arith

      here : (w.heap known_index).slot ≡ r.slot
      here = ground arith

      s : Sunk (store_entry w known_index (entry_of r)) (heap_place w known_index r)
      s =
          place-Sunk w known_index r inside (λ i l. ground (arith, v.indexed i l, here))
            (λ i p l. ground (arith, v.ordered i p l, v.ordered known_index))

      split :
          (e : Entry)
          → Has (store_entry w known_index (entry_of r)) e
          → (e ≡ entry_of r) ⊎ (Has w e × (e.slot ≢ r.slot))
      split e (i, l, p) = elim (ℕ_discrete i known_index) [
        | yes at ↦ inl (ground arith)
        | no away ↦ inr ((i, l, ground arith), ground (arith, v.indexed i l))
      ]

  absent : is_new w r ≡ true → (i : ℕ) → i < w.heap_size → (w.heap i).slot ≢ r.slot
  absent new i l e = ground (arith, v.indexed i l)

  -- A slot that the heap does not know, and room for it.
  append-Requested :
      is_new w r ≡ true
      → w.heap_size < w.capacity
      → Requested w r (heap_place (grown w r) w.heap_size r)
  append-Requested new room = record {
    valid = record {
      ordered = s.ordered;
      indexed = s.indexed;
      fits = omega (arith, s.kept.same_size, s.kept.same_capacity);
    };
    has_request =
        s.kept.keeps _ (w.heap_size, omega arith, update_self w.heap w.heap_size (entry_of r));
    others = λ e (i, l, p) ne. s.kept.keeps e (i, omega arith, ground arith);
    rest = λ e h. split e (s.kept.adds_none e h);
  }
    where
      s :
          Sunk
            (store_entry (grown w r) w.heap_size (entry_of r))
            (heap_place (grown w r) w.heap_size r)
      s =
          place-Sunk (grown w r) w.heap_size r (omega arith)
            (λ i l. ground (arith, v.indexed i, absent new i))
            (λ i p l. ground (arith, v.ordered i p))

      split :
          (e : Entry)
          → Has (store_entry (grown w r) w.heap_size (entry_of r)) e
          → (e ≡ entry_of r) ⊎ (Has w e × (e.slot ≢ r.slot))
      split e (i, l, p) = elim (ℕ_discrete i w.heap_size) [
        | yes at ↦ inl (ground arith)
        | no away ↦ inr ((i, omega arith, ground arith), ground (arith, absent new i))
      ]

-- On a valid heap: heap_set leaves a valid heap in which the slot has the requested deadline and
-- every other slot is as it was; only if the heap is full and does not know the slot does it
-- change nothing.
pub heap_set-Requested :
    (w : Watchdog) (r : Request)
    → IsValid w
    → Requested w r (heap_set w r)
      ⊎ ((w.heap_size ≡ w.capacity) × (¬ Known w r) × (heap_set w r ≡ w))
unfolding heap_set
heap_set-Requested w r v = elim (Bool-cases (is_new w r)) [
  | inl new ↦ elim (Bool-cases (leb w.capacity w.heap_size)) [
    | inl full ↦ inr (ground (arith, v.fits), (λ (i, l, e). absent w r v new i l e), rw (new, full))
    | inr room ↦ inl (rw (new, room) (append-Requested w r v new (ground arith)))
  ]
  | inr known ↦ inl (rw known (replace-Requested w r v known))
]
