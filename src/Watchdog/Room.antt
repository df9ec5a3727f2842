-- ===== src/Watchdog/Room.antt =====
-- The heap has room for every slot of the ring: it has an entry at most for each slot.
use native.Mathlib.Decide.{ℕ_discrete}
use endpoint_security.Base.{ℕ, ◌<◌, ◌≡◌, refl, ◌==◌, inl, inr, if◌then◌else◌, arith}
use endpoint_security.Base.Pigeonhole.{pigeonhole}
use endpoint_security.Watchdog.{Request, Watchdog, heap_remove, heap_set}
use endpoint_security.Watchdog.Settle.{IsValid}
use endpoint_security.Watchdog.Remove.{heap_remove-Removed}
use endpoint_security.Watchdog.Set.{Requested, Known, heap_set-Requested}
use endpoint_security.Watchdog.Ring.{heap_remove-SameRing, heap_set-SameRing}

-- Every entry is of a slot of the ring.
abbrev pub InRing : Watchdog → Type 0
InRing w = (i : ℕ) → i < w.heap_size → (w.heap i).slot < w.capacity

-- The slots of the heap, and after them the requested one
abbrev slots : Watchdog → Request → ℕ → ℕ
slots w r i = if i == w.capacity then r.slot else (w.heap i).slot

full-Known :
    (w : Watchdog) (r : Request)
    → IsValid w
    → InRing w
    → r.slot < w.capacity
    → w.heap_size ≡ w.capacity
    → Known w r
full-Known w r v inside fits full =
    let (i, j, l, m, e) = pigeonhole w.capacity (slots w r) (λ i l. ground (arith, inside i)) in
    elim (ℕ_discrete j w.capacity) [
      | yes last ↦ (i, omega arith, ground arith)
      | no before ↦ absurd (ground (arith, v.indexed i, v.indexed j))
    ]

-- On a valid heap whose entries are of slots of the ring, and for a slot of the ring: heap_set
-- never gives up. The heap stays valid and in the ring, the slot has the requested deadline, and
-- every other slot is as it was.
pub heap_set-Requested_in :
    (w : Watchdog) (r : Request)
    → IsValid w
    → InRing w
    → r.slot < w.capacity
    → Requested w r (heap_set w r) × InRing (heap_set w r)
heap_set-Requested_in w r v inside fits = elim (heap_set-Requested w r v) [
  | inl done ↦ (
    done,
    λ i l. elim (done.rest ((heap_set w r).heap i) (i, l, refl)) [
      | inl same ↦ ground (arith, heap_set-SameRing w r)
      | inr ((k, m, e), ne) ↦ ground (arith, heap_set-SameRing w r, inside k m)
    ],
  )
  | inr (full, unknown, same) ↦ absurd (unknown (full-Known w r v inside fits full))
]

pub heap_remove-InRing :
    (w : Watchdog) (index : ℕ)
    → IsValid w
    → index < w.heap_size
    → InRing w
    → InRing (heap_remove w index)
heap_remove-InRing w index v b inside i l =
    let removed = heap_remove-Removed w index v b in
    let ((k, m, e), ne) = removed.rest ((heap_remove w index).heap i) (i, l, refl) in
    ground (arith, heap_remove-SameRing w index, inside k m)
