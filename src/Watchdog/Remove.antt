-- ===== src/Watchdog/Remove.antt =====
-- heap_remove: the heap stays a heap, without the removed entry.
use native.Mathlib.Decide.{ℕ_discrete}
use endpoint_security.Base.{
  ℕ, ◌+◌, ◌-◌, ◌<◌, ◌≡◌, ◌≢◌, ◌⊎◌, inl, inr, arith, eq→==, ne→==, update, u64_max,
}
use endpoint_security.Watchdog.{Entry, Watchdog, store_index, store_entry, heap_remove}
use endpoint_security.Watchdog.Order.{Indexed, Around, Has}
use endpoint_security.Watchdog.Settle.{IsValid, settle, ⊎-map_right}

-- heap_remove, in its parts
abbrev shrunk : Watchdog → ℕ → Watchdog
shrunk w index = record w {
  watchdog_index = update w.watchdog_index (w.heap index).slot u64_max;
  heap_size = w.heap_size - 1;
}

abbrev filled_up : Watchdog → ℕ → Watchdog
filled_up w index =
    store_index (store_entry (shrunk w index) index (w.heap (w.heap_size - 1))) index

module _ (w : Watchdog) (index : ℕ) (v : IsValid w) (b : index < w.heap_size) where
  filled_up-Indexed : index ≢ w.heap_size - 1 → Indexed (filled_up w index)
  filled_up-Indexed ne i l =
      ground (arith, v.indexed i, v.indexed index, v.indexed (w.heap_size - 1))

  filled_up-Around : index ≢ w.heap_size - 1 → Around (filled_up w index) index
  filled_up-Around ne i p l = ground (arith, v.ordered i, v.ordered index)

  shrunk-Indexed : index ≡ w.heap_size - 1 → Indexed (shrunk w index)
  shrunk-Indexed e i l = ground (arith, v.indexed i, v.indexed index)

  filled_up-Has :
      index ≢ w.heap_size - 1
      → (e : Entry) → Has w e
      → (e ≡ w.heap index) ⊎ Has (filled_up w index) e
  filled_up-Has ne e (i, l, p) = elim (ℕ_discrete i index) [
    | yes gone ↦ inl (ground arith)
    | no stays ↦ elim (ℕ_discrete i (w.heap_size - 1)) [
      | yes last ↦ inr (index, omega arith, ground arith)
      | no other ↦ inr (i, omega arith, ground arith)
    ]
  ]

  filled_up-Has_inv :
      index ≢ w.heap_size - 1
      → (e : Entry) → Has (filled_up w index) e
      → Has w e × (e.slot ≢ (w.heap index).slot)
  filled_up-Has_inv ne e (i, l, p) = elim (ℕ_discrete i index) [
    | yes moved ↦ (
      (w.heap_size - 1, omega arith, ground arith),
      ground (arith, v.indexed index, v.indexed (w.heap_size - 1)),
    )
    | no other ↦ ((i, omega arith, ground arith), ground (arith, v.indexed index, v.indexed i))
  ]

  shrunk-Has :
      index ≡ w.heap_size - 1 → (e : Entry) → Has w e → (e ≡ w.heap index) ⊎ Has (shrunk w index) e
  shrunk-Has s e (i, l, p) = elim (ℕ_discrete i index) [
    | yes gone ↦ inl (ground arith)
    | no stays ↦ inr (i, omega arith, p)
  ]

  shrunk-Has_inv :
      index ≡ w.heap_size - 1
      → (e : Entry) → Has (shrunk w index) e
      → Has w e × (e.slot ≢ (w.heap index).slot)
  shrunk-Has_inv s e (i, l, p) = ((i, omega arith, p), ground (arith, v.indexed index, v.indexed i))

-- `u` is `w` without the entry at `index`.
pub record Removed (w : Watchdog) (index : ℕ) (u : Watchdog) : Type 0 where
  pub valid : IsValid u
  pub smaller : u.heap_size + 1 ≡ w.heap_size
  pub others : (e : Entry) → Has w e → (e ≡ w.heap index) ⊎ Has u e
  pub rest : (e : Entry) → Has u e → Has w e × (e.slot ≢ (w.heap index).slot)

-- heap_remove takes out the entry at an index inside a valid heap, and leaves a valid heap of
-- exactly the other entries, in which the removed slot does not occur.
pub heap_remove-Removed :
    (w : Watchdog) (index : ℕ)
    → IsValid w
    → index < w.heap_size
    → Removed w index (heap_remove w index)
unfolding heap_remove
heap_remove-Removed w index v b = elim (ℕ_discrete index (w.heap_size - 1)) [
  | yes last ↦ rw (eq→== index (w.heap_size - 1) last) (record {
    valid = record {
      ordered = λ i p l. v.ordered i p (omega arith);
      indexed = shrunk-Indexed w index v b last;
      fits = omega (arith, v.fits);
    };
    smaller = omega arith;
    others = shrunk-Has w index v b last;
    rest = shrunk-Has_inv w index v b last;
  })
  | no inner ↦
      let s =
        settle (filled_up w index) index (omega arith) (filled_up-Indexed w index v b inner)
          (filled_up-Around w index v b inner) in
      rw (ne→== index (w.heap_size - 1) inner) (record {
        valid = record {
          ordered = s.ordered;
          indexed = s.indexed;
          fits = omega (arith, v.fits, s.kept.same_size, s.kept.same_capacity);
        };
        smaller = omega (arith, s.kept.same_size);
        others = λ e h. ⊎-map_right (s.kept.keeps e) (filled_up-Has w index v b inner e h);
        rest = λ e h. filled_up-Has_inv w index v b inner e (s.kept.adds_none e h);
      })
]
