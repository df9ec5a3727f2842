-- ===== src/Watchdog/Tests.antt =====
-- A heap with two deadlines, and a request ring with room.
use endpoint_security.Base.{
  ◌+◌, ◌≡◌, ◌⊎◌, refl, [], ◌∷◌, ◌++◌, some, none, true, false, arith, update,
}
use endpoint_security.Slot.{Slot, pending}
use endpoint_security.Queue.{fresh}
use endpoint_security.Queue.Shape.{init-IsShape}
use endpoint_security.Watchdog.{
  Request, Entry, Watchdog, heap_remove, heap_set, arm, request_pop, entry_of,
}
use endpoint_security.Watchdog.Settle.{IsValid}
use endpoint_security.Watchdog.Remove.{Removed, heap_remove-Removed}
use endpoint_security.Watchdog.Set.{Requested, Known, heap_set-Requested}
use endpoint_security.Watchdog.Requests.{
  IsRing, request_of, requested, armed, popped, armed-IsRing, arm_refines, pop_refines,
}
use endpoint_security.Watchdog.Fresh.{first_watchdog, first-IsRing}

abbrev early : Entry
early = record { slot = 2; position = 6; fire_at = 10 }

abbrev late : Entry
late = record { slot = 3; position = 7; fire_at = 20 }

abbrev pub two_due : Watchdog
two_due = record (first_watchdog 4) {
  heap = update (update (first_watchdog 4).heap 0 early) 1 late;
  heap_size = 2;
  watchdog_index = update (update (first_watchdog 4).watchdog_index 2 0) 3 1;
}

pub two_due-IsValid : IsValid two_due
two_due-IsValid = record {
  ordered = λ i p l. ground arith;
  indexed = λ i l. ground arith;
  fits = omega arith;
}

-- The deadline of slot 3 is moved before the one of slot 2.
abbrev pub sooner : Request
sooner = record { sequence = 1; slot = 3; position = 7; fire_at = 5 }

abbrev pub armed_slot : Slot
armed_slot = record {
  sequence = 0;
  occupied = true;
  message = 7;
  client = 1;
  position = 0;
  fire_at = 50;
  answer_state = pending;
  readers = 0;
}

four-IsRing : IsRing (first_watchdog 4)
unfolding endpoint_security.Queue.init
four-IsRing = first-IsRing 4 (init-IsShape 4 true {q = fresh 4} refl (omega arith))

heap_remove-Removed_example : Removed two_due 0 (heap_remove two_due 0)
heap_remove-Removed_example = heap_remove-Removed two_due 0 two_due-IsValid (omega arith)

heap_set-Requested_example :
    Requested two_due sooner (heap_set two_due sooner)
    ⊎ ((two_due.heap_size ≡ two_due.capacity)
        × (¬ Known two_due sooner)
        × (heap_set two_due sooner ≡ two_due))
heap_set-Requested_example = heap_set-Requested two_due sooner two_due-IsValid

arm_refines_example :
    let w = first_watchdog 4 in
    ((w.enqueue_position ≡ w.dequeue_position + w.capacity)
      × (arm w 0 armed_slot ≡ some (w, false)))
    ⊎ ((arm w 0 armed_slot ≡ some (armed w 0 armed_slot, true))
        × IsRing (armed w 0 armed_slot)
        × (requested (armed w 0 armed_slot)
            ≡ requested w ++ (record { slot = 0; position = 0; fire_at = 50 } ∷ [])))
arm_refines_example = arm_refines 0 armed_slot four-IsRing (omega arith)

abbrev pub one_asked : Watchdog
one_asked = armed (first_watchdog 4) 0 armed_slot

pub one_asked-IsRing : IsRing one_asked
one_asked-IsRing = armed-IsRing four-IsRing (omega arith) 0 armed_slot (omega arith)

pop_refines_example :
    let w = one_asked in
    ((requested w ≡ []) × (request_pop w ≡ none))
    ⊎ ((request_pop w ≡ some (popped w, request_of w w.dequeue_position))
        × IsRing (popped w)
        × (requested w ≡ entry_of (request_of w w.dequeue_position) ∷ requested (popped w)))
pop_refines_example = pop_refines one_asked-IsRing (omega arith)
