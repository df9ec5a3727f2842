-- ===== src/Client/Tests.antt =====
-- The client of Samples is made, and takes its first message.
use endpoint_security.Base.{
  ◌+◌, ◌-◌, ◌*◌, ◌/◌, ◌^◌, ◌<◌, ◌≤◌, ◌≡◌, ◌⊎◌, refl, [], ◌∷◌, true, false, arith,
}
use endpoint_security.Base.Lists.{length}
use endpoint_security.Queue.Fresh.{fresh-IsValid}
use endpoint_security.Watchdog.Fresh.{first-IsRing}
use endpoint_security.Client.{Client, advance_of, deadline_fire_time}
use endpoint_security.Client.Callback.{handle_message}
use endpoint_security.Client.Deadline.{
  record_all, last_number, deadline_fire_time_bounds, gaps_counted,
}
use endpoint_security.Client.Handled.{Returns}
use endpoint_security.Client.Handled.Total.{Handled, handle_refines}
use endpoint_security.Client.Initialize.{initialize, margin_ticks}
use endpoint_security.Client.Initialize.Complete.{AllOrNothing, initialize_lem, margin_ticks_lem}
use endpoint_security.Client.Samples.{
  auth_message, framework, system, options, sample, four-IsShape,
}
use endpoint_security.Slot.{Slot, pending}
use endpoint_security.Queue.{Queue, fresh}
use endpoint_security.Queue.Valid.{IsValid, pushed, pushed-IsValid}
use endpoint_security.Client.Dispatch.{client_drain}
use endpoint_security.Client.Dispatch.Drains.{Drains, client_drain-Drains}
use endpoint_security.Client.Lifetime.{client_free}
use endpoint_security.Client.Lifetime.Freed.{IsFreed, client_free-IsFreed}
use endpoint_security.Client.Initialize.{Held}
use endpoint_security.Client.Close.{close_native}
use endpoint_security.Client.Close.Closed.{IsClosed, close_native-IsClosed}

handle_refines_example :
    Returns (handle_message framework sample 9 7 50) (Handled framework sample 9 7 50)
handle_refines_example =
    handle_refines framework sample 9 7 50 (fresh-IsValid 4 four-IsShape) (omega arith)
      (first-IsRing 4 four-IsShape) (omega arith) (omega arith)

initialize_lem_example : AllOrNothing 4 (initialize system options)
initialize_lem_example = initialize_lem system options (omega arith)

margin_ticks_lem_example :
    (5000000 * 3 < 2 ^ 64 → margin_ticks 3 125 5000000 ≡ 5000000 * 3 / 125)
    × (2 ^ 64 ≤ 5000000 * 3 → margin_ticks 3 125 5000000 ≡ 2 ^ 64 - 1)
margin_ticks_lem_example = margin_ticks_lem 3 125 5000000 (omega arith)

deadline_fire_time_bounds_example :
    let fire = deadline_fire_time sample 50 100 in
    let scaled = advance_of sample.deadline_margin (100 - 50) in
    (100 ≤ 50 → fire ≡ 50)
    × (50 < 100
        → (50 ≤ fire)
          × (fire ≤ 100)
          × (((fire + scaled ≤ 100) × (fire + sample.min_margin_ticks ≤ 100))
              ⊎ ((fire ≡ 50) × ((100 - 50 ≤ scaled) ⊎ (100 - 50 ≤ sample.min_margin_ticks)))))
deadline_fire_time_bounds_example = deadline_fire_time_bounds sample 50 100

-- Number 9 comes after 5, so 6, 7 and 8 are missing.
abbrev after_five : Client
after_five = record sample { seen_global_seq = true; last_global_seq = 5 }

gaps_counted_example :
    (record_all after_five (auth_message ∷ [])).seq_gaps
      + length (auth_message ∷ [])
      + after_five.last_global_seq
    ≡ after_five.seq_gaps + last_number after_five.last_global_seq (auth_message ∷ [])
gaps_counted_example =
    gaps_counted (auth_message ∷ []) after_five refl (omega arith, omega arith, omega arith, _)
      (omega arith)

-- A message waits in the first slot.
abbrev first_slot : Slot
first_slot = record {
  sequence = 0;
  occupied = true;
  message = 7;
  client = 1;
  position = 0;
  fire_at = 50;
  answer_state = pending;
  readers = 0;
}

abbrev one_waits : Client
one_waits = record sample { queue = pushed (fresh 4) first_slot }

one_waits-IsValid : IsValid one_waits.queue
one_waits-IsValid = pushed-IsValid (fresh-IsValid 4 four-IsShape) (omega arith) first_slot refl refl

client_drain-Drains_example : Drains 2 one_waits 77 (client_drain 2 one_waits 77)
unfolding endpoint_security.Queue.publish
client_drain-Drains_example =
    client_drain-Drains 2 one_waits 77 one_waits-IsValid (omega arith) (omega arith)

close_native-IsClosed_example :
    Returns (close_native framework one_waits) (IsClosed framework one_waits)
unfolding endpoint_security.Queue.publish
close_native-IsClosed_example =
    close_native-IsClosed framework one_waits refl refl one_waits-IsValid (omega arith)
      (λ i. ground arith)

-- A process that was forked from it holds all but the thread.
abbrev inherited : Held
inherited = record { ring = true; heap = true; pipe = true; thread = false }

client_free-IsFreed_example :
    IsFreed framework one_waits 78 (client_free framework one_waits 78 inherited)
unfolding endpoint_security.Queue.publish
client_free-IsFreed_example =
    client_free-IsFreed framework one_waits 78 inherited (λ h. omega (arith, h)) refl refl
      one_waits-IsValid (omega arith) (λ i. ground arith) (ground arith)
