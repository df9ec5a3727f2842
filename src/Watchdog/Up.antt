-- ===== src/Watchdog/Up.antt =====
-- heap_up: an entry that is too early rises to its place.
use endpoint_security.Base.{
  ℕ, zero, suc, ◌≤◌, ◌<◌, ◌≡◌, ◌≢◌, ◌||◌, leb, ◌==◌, refl, ◌∙◌, inl, inr, true, false, arith,
  Bool-cases,
}
use endpoint_security.Watchdog.{Entry, Watchdog, key, parent, heap_swap, heap_up_loop, heap_up}
use endpoint_security.Watchdog.Order.{Indexed, Around, Below, Kept, Kept-refl, Kept-trans}
use endpoint_security.Watchdog.Swap.{swap-Indexed, swap-Kept, heap-swap_left, size-swap}

-- The entry `e` has come to rest at `place`, with nothing above it out of order.
pub record Risen (w v : Watchdog) (e : Entry) : Type 0 where
  pub kept : Kept w v
  pub indexed : Indexed v
  pub place : ℕ
  pub inside : place < v.heap_size
  pub lands : v.heap place ≡ e
  pub below : Below v place

module _ (w : Watchdog) (j : ℕ) (hj : j < w.heap_size) (around : Around w j) where
  stop-Below : (j == 0) || leb (key w (parent j)) (key w j) ≡ true → Below w j
  stop-Below stop i p b = ground (arith, around i p b)

  swap-Around :
      (j == 0) || leb (key w (parent j)) (key w j) ≡ false
      → Around (heap_swap w (parent j) j) (parent j)
  unfolding heap_swap
  swap-Around go i p b = ground (arith, around i p b, around (parent j))

-- After one swap the rest of the climb does the work.
climb :
    (w v : Watchdog) (q j : ℕ)
    → q < w.heap_size
    → j < w.heap_size
    → q ≢ j
    → Risen (heap_swap w q j) v ((heap_swap w q j).heap q)
    → Risen w v (w.heap j)
climb w v q j hq hj ne r = record {
  kept = Kept-trans (swap-Kept w q j hq hj) r.kept;
  indexed = r.indexed;
  place = r.place;
  inside = r.inside;
  lands = r.lands ∙ heap-swap_left w q j ne;
  below = r.below;
}

moves_up : (w : Watchdog) (j : ℕ) → (j == 0 || leb (key w (parent j)) (key w j)) ≡ false → 0 < j
moves_up w j go = ground arith

heap_up_loop-Risen :
    (rounds : ℕ) (w : Watchdog) (j : ℕ)
    → j ≤ rounds
    → j < w.heap_size
    → Indexed w
    → Around w j
    → Risen w (heap_up_loop rounds w j) (w.heap j)
unfolding heap_up_loop
heap_up_loop-Risen zero w j l b ix a = record {
  kept = Kept-refl w;
  indexed = ix;
  place = j;
  inside = b;
  lands = refl;
  below = λ i p q. ground (arith, a i p q);
}
heap_up_loop-Risen (suc rounds) w j l b ix a =
    elim (Bool-cases (j == 0 || leb (key w (parent j)) (key w j))) [
      | inl stop ↦ rw stop (record {
        kept = Kept-refl w;
        indexed = ix;
        place = j;
        inside = b;
        lands = refl;
        below = stop-Below w j b a stop;
      })
      | inr go ↦
          let up = moves_up w j go in
          rw go (
            climb w _ (parent j) j (omega arith) b (omega arith) (
              heap_up_loop-Risen rounds (heap_swap w (parent j) j) (parent j) (omega arith)
                (omega (arith, size-swap w (parent j) j))
                (swap-Indexed w (parent j) j (omega arith) b (omega arith) ix)
                (swap-Around w j b a go)))
    ]

-- heap_up brings the entry at `j` to a place where nothing above it is out of order, and keeps the
-- entries and the indices.
pub heap_up-Risen :
    (w : Watchdog) (j : ℕ)
    → j < w.heap_size
    → Indexed w
    → Around w j
    → Risen w (heap_up w j) (w.heap j)
unfolding heap_up
heap_up-Risen w j b ix a = heap_up_loop-Risen j w j (omega arith) b ix a
