-- ===== src/Watchdog/Swap.antt =====
-- heap_swap exchanges two entries and their indices.
use native.Mathlib.Decide.{ℕ_discrete}
use endpoint_security.Base.{ℕ, ◌<◌, ◌≡◌, ◌≢◌, refl, arith}
use endpoint_security.Watchdog.{Entry, Watchdog, heap_swap}
use endpoint_security.Watchdog.Order.{Indexed, Has, Kept}

module _ (w : Watchdog) (l r : ℕ) (hl : l < w.heap_size) (hr : r < w.heap_size) where
  pub swap-Indexed : l ≢ r → Indexed w → Indexed (heap_swap w l r)
  unfolding heap_swap
  swap-Indexed ne h i b = ground (arith, h l hl, h r hr, h i b)

  swap-Has : (e : Entry) → Has w e → Has (heap_swap w l r) e
  unfolding heap_swap
  swap-Has e (i, b, p) = elim (ℕ_discrete i l) [
    | yes at_l ↦ (r, hr, ground arith)
    | no away ↦ elim (ℕ_discrete i r) [
      | yes at_r ↦ (l, hl, ground arith)
      | no elsewhere ↦ (i, b, ground arith)
    ]
  ]

  swap-Has_inv : (e : Entry) → Has (heap_swap w l r) e → Has w e
  unfolding heap_swap
  swap-Has_inv e (i, b, p) = elim (ℕ_discrete i r) [
    | yes at_r ↦ (l, hl, ground arith)
    | no away ↦ elim (ℕ_discrete i l) [
      | yes at_l ↦ (r, hr, ground arith)
      | no elsewhere ↦ (i, b, ground arith)
    ]
  ]

  pub swap-Kept : Kept w (heap_swap w l r)
  unfolding heap_swap
  swap-Kept = record {
    same_size = refl;
    same_capacity = refl;
    same_requests = (refl, refl, refl, refl);
    keeps = swap-Has;
    adds_none = swap-Has_inv;
  }

pub heap-swap_left : (w : Watchdog) (l r : ℕ) → l ≢ r → (heap_swap w l r).heap l ≡ w.heap r
unfolding heap_swap
heap-swap_left w l r ne = ground arith

pub heap-swap_right : (w : Watchdog) (l r : ℕ) → (heap_swap w l r).heap r ≡ w.heap l
unfolding heap_swap
heap-swap_right w l r = ground arith

pub size-swap : (w : Watchdog) (l r : ℕ) → (heap_swap w l r).heap_size ≡ w.heap_size
unfolding heap_swap
size-swap w l r = refl
