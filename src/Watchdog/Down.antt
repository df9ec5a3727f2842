-- ===== src/Watchdog/Down.antt =====
-- heap_down: an entry that is too late sinks to its place.
use endpoint_security.Base.{
  ℕ, zero, suc, ◌+◌, ◌*◌, ◌≤◌, ◌<◌, ◌≡◌, ◌||◌, leb, inl, inr, true, false, arith, Bool-cases,
}
use endpoint_security.Watchdog.{Watchdog, key, smallest_child, heap_swap, heap_down_loop, heap_down}
use endpoint_security.Watchdog.Order.{IsHeap, Indexed, Below, Kept, Kept-refl, Kept-trans}
use endpoint_security.Watchdog.Swap.{swap-Indexed, swap-Kept, size-swap}

-- The whole heap is in order.
pub record Sunk (w v : Watchdog) : Type 0 where
  pub kept : Kept w v
  pub indexed : Indexed v
  pub ordered : IsHeap v

module _ (w : Watchdog) (j : ℕ) (below : Below w j) where
  stop-IsHeap :
      leb w.heap_size (j * 2 + 1) || leb (key w j) (key w (smallest_child w j)) ≡ true → IsHeap w
  stop-IsHeap stop i p b = ground (arith, below i p b)

  go_bounds :
      leb w.heap_size (j * 2 + 1) || leb (key w j) (key w (smallest_child w j)) ≡ false
      → (j < smallest_child w j) × (smallest_child w j < w.heap_size)
  go_bounds go = ground arith

  swap-Below :
      leb w.heap_size (j * 2 + 1) || leb (key w j) (key w (smallest_child w j)) ≡ false
      → Below (heap_swap w j (smallest_child w j)) (smallest_child w j)
  unfolding heap_swap
  swap-Below go i p b = ground (arith, below i p b, below (smallest_child w j))

heap_down_loop-Sunk :
    (rounds : ℕ) (w : Watchdog) (j : ℕ)
    → w.heap_size ≤ j + rounds
    → Indexed w
    → Below w j
    → Sunk w (heap_down_loop rounds w j)
unfolding heap_down_loop
heap_down_loop-Sunk zero w j l ix a = record {
  kept = Kept-refl w;
  indexed = ix;
  ordered = λ i p b. ground (arith, a i p b);
}
heap_down_loop-Sunk (suc rounds) w j l ix a =
    elim (Bool-cases (leb w.heap_size (j * 2 + 1) || leb (key w j) (key w (smallest_child w j)))) [
      | inl stop ↦
          rw stop (record { kept = Kept-refl w; indexed = ix; ordered = stop-IsHeap w j a stop })
      | inr go ↦
          let c = smallest_child w j in
          let (lower, inside) = go_bounds w j a go in
          let rest =
            heap_down_loop-Sunk rounds (heap_swap w j c) c (omega (arith, size-swap w j c))
              (swap-Indexed w j c (omega arith) inside (omega arith) ix) (swap-Below w j a go) in
          rw go (record {
            kept = Kept-trans (swap-Kept w j c (omega arith) inside) rest.kept;
            indexed = rest.indexed;
            ordered = rest.ordered;
          })
    ]

-- heap_down puts a heap in order whose entry at `j` may be too late, and keeps the entries and the
-- indices.
pub heap_down-Sunk : (w : Watchdog) (j : ℕ) → Indexed w → Below w j → Sunk w (heap_down w j)
unfolding heap_down
heap_down-Sunk w j ix a = heap_down_loop-Sunk w.heap_size w j (omega arith) ix a
