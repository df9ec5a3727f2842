-- ===== src/Watchdog/Settle.antt =====
-- An entry that was stored anywhere in the heap finds its place, whichever way it has to go.
use endpoint_security.Base.{ℕ, ◌≤◌, ◌<◌, ◌≡◌, ◌⊎◌, inl, inr, ap, sym, ◌∙◌}
use endpoint_security.Watchdog.{Entry, Watchdog, heap_up, heap_down}
use endpoint_security.Watchdog.Order.{IsHeap, Indexed, Around, Kept-trans}
use endpoint_security.Watchdog.Up.{heap_up-Risen}
use endpoint_security.Watchdog.Down.{Sunk, heap_down-Sunk}

pub record IsValid (w : Watchdog) : Type 0 where
  pub ordered : IsHeap w
  pub indexed : Indexed w
  pub fits : w.heap_size ≤ w.capacity

-- Rising, then sinking from where the slot says it is, puts a heap in order that is out of order
-- around `j` only.
pub settle :
    (w : Watchdog) (j : ℕ)
    → j < w.heap_size
    → Indexed w
    → Around w j
    → Sunk w (heap_down (heap_up w j) ((heap_up w j).watchdog_index (w.heap j).slot))
settle w j b ix a =
    let up = heap_up-Risen w j b ix a in
    let found : (heap_up w j).watchdog_index (w.heap j).slot ≡ up.place =
      ap (λ (e : Entry). (heap_up w j).watchdog_index e.slot) (sym up.lands)
      ∙ up.indexed up.place up.inside in
    let down = heap_down-Sunk (heap_up w j) up.place up.indexed up.below in
    rw found (record {
      kept = Kept-trans up.kept down.kept;
      indexed = down.indexed;
      ordered = down.ordered;
    })

pub ⊎-map_right : {A B C : Type 0} → (B → C) → A ⊎ B → A ⊎ C
⊎-map_right f (inl a) = inl a
⊎-map_right f (inr b) = inr (f b)
