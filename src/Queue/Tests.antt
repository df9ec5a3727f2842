-- ===== src/Queue/Tests.antt =====
-- A ring of four slots: message 7 is pushed, taken and released.
use endpoint_security.Base.{
  suc, ◌%◌, ◌≡◌, ◌⊎◌, refl, [], ◌∷◌, ◌++◌, some, none, true, arith, bit_and,
}
use endpoint_security.Slot.{Slot, not_auth}
use endpoint_security.Queue.{Queue, fresh, init, index_of, enqueue, dequeue, release, publish}
use endpoint_security.Queue.Shape.{init-IsShape}
use endpoint_security.Queue.Valid.{
  IsValid, Blocked, claimed, pushed, slot_of, pushed-IsValid, dequeued-IsValid,
}
use endpoint_security.Queue.Calls.{
  contents, released, enqueue_refines, dequeue_refines, release_lem,
}
use endpoint_security.Queue.Modulo.{index_of-mod}
use endpoint_security.Queue.Fresh.{fresh-IsValid}

made : init 4 true ≡ some (fresh 4)
unfolding init
made = refl

empty-IsValid : IsValid (fresh 4)
empty-IsValid = fresh-IsValid 4 (init-IsShape 4 true made (omega arith))

abbrev seven : Slot
seven = record {
  sequence = 0;
  occupied = true;
  message = 7;
  client = 1;
  position = 0;
  fire_at = 0;
  answer_state = not_auth;
  readers = 0;
}

abbrev one : Queue
one = pushed (fresh 4) seven

one-IsValid : IsValid one
one-IsValid = pushed-IsValid empty-IsValid (omega arith) seven refl refl

abbrev taken : Queue
taken = record one { dequeue_position = 1 }

taken-IsValid : IsValid taken
unfolding publish
taken-IsValid = dequeued-IsValid one-IsValid (omega arith) (omega arith)

enqueue_refines_example :
    (Blocked (fresh 4) × (enqueue (fresh 4) ≡ some (fresh 4, none)))
    ⊎ ((enqueue (fresh 4) ≡ some (claimed (fresh 4), some (index_of (fresh 4) 0)))
        × ((slot : Slot)
            → slot.position ≡ 0
            → IsValid (pushed (fresh 4) slot)
              × (contents (pushed (fresh 4) slot) ≡ contents (fresh 4) ++ (slot.message ∷ []))))
enqueue_refines_example = enqueue_refines empty-IsValid (omega arith)

dequeue_refines_example :
    ((contents one ≡ []) × (dequeue one ≡ some (one, none)))
    ⊎ (let u = record one { dequeue_position = suc one.dequeue_position } in
        let index = index_of one one.dequeue_position in
        (dequeue one ≡ some (u, some index))
        × IsValid u
        × (contents one ≡ (one.slots index).message ∷ contents u))
unfolding publish
dequeue_refines_example = dequeue_refines one-IsValid (omega arith)

release_lem_example :
    (release taken (bit_and 4 taken.mask) ≡ some (released taken 4))
    × IsValid (released taken 4)
    × (contents (released taken 4) ≡ contents taken)
    × ((slot_of (released taken 4) 4).sequence ≡ 4)
unfolding publish
release_lem_example =
    release_lem 4 taken-IsValid (omega arith) (omega arith) (omega arith) (refl, refl) refl

index_of-mod_example : index_of (fresh 4) 11 ≡ 11 % 4
unfolding init
index_of-mod_example = index_of-mod 4 true (fresh 4) 11 made
