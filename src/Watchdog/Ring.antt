-- ===== src/Watchdog/Ring.antt =====
-- The deadline heap and the request ring do not touch each other.
use endpoint_security.Base.{ℕ, zero, suc, ◌-◌, ◌≡◌, refl, ◌||◌, not, leb, ◌==◌, if-both, arith}
use endpoint_security.Watchdog.{
  Request, Watchdog, parent, smallest_child, heap_swap, heap_up_loop, heap_up, heap_down_loop,
  heap_down, heap_remove, heap_set,
}

-- `u` has the request ring of `w`.
pub record SameRing (w u : Watchdog) : Type 0 where
  pub capacity : u.capacity ≡ w.capacity
  pub mask : u.mask ≡ w.mask
  pub requests : u.requests ≡ w.requests
  pub enqueue_position : u.enqueue_position ≡ w.enqueue_position
  pub dequeue_position : u.dequeue_position ≡ w.dequeue_position

swap-SameRing : (w : Watchdog) (i j : ℕ) → SameRing w (heap_swap w i j)
unfolding heap_swap
swap-SameRing w i j = record {
  capacity = refl;
  mask = refl;
  requests = refl;
  enqueue_position = refl;
  dequeue_position = refl;
}

heap_up_loop-SameRing : (rounds : ℕ) (w : Watchdog) (j : ℕ) → SameRing w (heap_up_loop rounds w j)
unfolding heap_up_loop
heap_up_loop-SameRing zero w j = ground arith
heap_up_loop-SameRing (suc rounds) w j = ground (
  arith,
  heap_up_loop-SameRing rounds (heap_swap w (parent j) j) (parent j),
  swap-SameRing w (parent j) j,
)

heap_down_loop-SameRing :
    (rounds : ℕ) (w : Watchdog) (j : ℕ) → SameRing w (heap_down_loop rounds w j)
unfolding heap_down_loop
heap_down_loop-SameRing zero w j = ground arith
heap_down_loop-SameRing (suc rounds) w j =
    let c = smallest_child w j in
    ground (arith, heap_down_loop-SameRing rounds (heap_swap w j c) c, swap-SameRing w j c)

heap_up-SameRing : (w : Watchdog) (j : ℕ) → SameRing w (heap_up w j)
unfolding heap_up
heap_up-SameRing w j = heap_up_loop-SameRing j w j

heap_down-SameRing : (w : Watchdog) (j : ℕ) → SameRing w (heap_down w j)
unfolding heap_down
heap_down-SameRing w j = heap_down_loop-SameRing w.heap_size w j

pub SameRing-trans : {w u v : Watchdog} → SameRing w u → SameRing u v → SameRing w v
SameRing-trans a b = ground arith

-- Rising, then sinking from anywhere
pub move-SameRing :
    {w : Watchdog} (u : Watchdog) (i j : ℕ) → SameRing w u → SameRing w (heap_down (heap_up u i) j)
move-SameRing u i j h =
    SameRing-trans h (SameRing-trans (heap_up-SameRing u i) (heap_down-SameRing (heap_up u i) j))

pub heap_remove-SameRing : (w : Watchdog) (index : ℕ) → SameRing w (heap_remove w index)
unfolding heap_remove
heap_remove-SameRing w index =
    if-both (SameRing w) (index == w.heap_size - 1) _ _ (ground arith)
      (move-SameRing _ index _ (ground arith))

pub heap_set-SameRing : (w : Watchdog) (r : Request) → SameRing w (heap_set w r)
unfolding heap_set
heap_set-SameRing w r =
    if-both (SameRing w)
      (leb w.heap_size (w.watchdog_index r.slot)
        || not ((w.heap (w.watchdog_index r.slot)).slot == r.slot))
      _ _
      (if-both (SameRing w) (leb w.capacity w.heap_size) _ _ (ground arith)
        (move-SameRing _ w.heap_size _ (ground arith)))
      (move-SameRing _ (w.watchdog_index r.slot) _ (ground arith))
