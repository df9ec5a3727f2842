-- ===== src/Watchdog/Order.antt =====
-- The deadline heap: its order, its table of indices, and which entries it has.
use native.Mathlib.Decide.{ℕ_discrete}
use endpoint_security.Base.{ℕ, zero, suc, ◌≤◌, ◌<◌, ◌≡◌, ◌≢◌, refl, arith}
use endpoint_security.Watchdog.{Entry, Watchdog, key, parent}

-- No entry is due before its parent.
abbrev pub IsHeap : Watchdog → Type 0
IsHeap w = (i : ℕ) → 0 < i → i < w.heap_size → key w (parent i) ≤ key w i

-- Each slot of the heap knows its index there, so that no slot is in it twice.
abbrev pub Indexed : Watchdog → Type 0
Indexed w = (i : ℕ) → i < w.heap_size → w.watchdog_index (w.heap i).slot ≡ i

-- Ordered but for the entry at `j`, which may be too early for its parent or too late for its
-- children.
abbrev pub Around : Watchdog → ℕ → Type 0
Around w j =
    (i : ℕ)
    → 0 < i
    → i < w.heap_size
    → (i ≢ j → parent i ≢ j → key w (parent i) ≤ key w i)
      × (parent i ≡ j → 0 < j → key w (parent j) ≤ key w i)

-- Ordered but for the entry at `j`, which may be too late for its children.
abbrev pub Below : Watchdog → ℕ → Type 0
Below w j =
    (i : ℕ)
    → 0 < i
    → i < w.heap_size
    → (parent i ≢ j → key w (parent i) ≤ key w i)
      × (parent i ≡ j → 0 < j → key w (parent j) ≤ key w i)

-- The heap has this entry.
abbrev pub Has : Watchdog → Entry → Type 0
Has w e = (i : ℕ) × (i < w.heap_size) × (w.heap i ≡ e)

-- The same entries, perhaps in other places, and nothing else changed.
pub record Kept (w v : Watchdog) : Type 0 where
  pub same_size : v.heap_size ≡ w.heap_size
  pub same_capacity : v.capacity ≡ w.capacity
  pub same_requests :
      (v.mask ≡ w.mask)
      × (v.requests ≡ w.requests)
      × (v.enqueue_position ≡ w.enqueue_position)
      × (v.dequeue_position ≡ w.dequeue_position)
  pub keeps : (e : Entry) → Has w e → Has v e
  pub adds_none : (e : Entry) → Has v e → Has w e

pub Kept-refl : (w : Watchdog) → Kept w w
Kept-refl w = record {
  same_size = refl;
  same_capacity = refl;
  same_requests = (refl, refl, refl, refl);
  keeps = λ e h. h;
  adds_none = λ e h. h;
}

pub Kept-trans : {u v w : Watchdog} → Kept u v → Kept v w → Kept u w
Kept-trans a b = record {
  same_size = ground arith;
  same_capacity = ground arith;
  same_requests = ground arith;
  keeps = λ e h. b.keeps e (a.keeps e h);
  adds_none = λ e h. a.adds_none e (b.adds_none e h);
}

-- The root is due first.
pub root-le : (w : Watchdog) → IsHeap w → (n i : ℕ) → i ≤ n → i < w.heap_size → key w 0 ≤ key w i
root-le w h zero i l b = ground arith
root-le w h (suc n) i l b = elim (ℕ_discrete i 0) [
  | yes top ↦ ground arith
  | no lower ↦
      omega (arith, h i (omega arith) b, root-le w h n (parent i) (omega arith) (omega arith))
]
