-- ===== src/Watchdog/RoundTests.antt =====
-- A turn of the watchdog with one deadline in the request ring.
use endpoint_security.Base.{arith}
use endpoint_security.Queue.{fresh, write_slot}
use endpoint_security.Client.{Client}
use endpoint_security.Client.Samples.{framework, sample, four-IsShape}
use endpoint_security.Watchdog.Fire.{round}
use endpoint_security.Watchdog.Fresh.{first_watchdog}
use endpoint_security.Watchdog.Round.{IsSound, first-IsSound, armed-IsSound, Turned, round-Turned}
use endpoint_security.Watchdog.Tests.{armed_slot, one_asked}

one_asked-IsSound : IsSound one_asked
one_asked-IsSound =
    armed-IsSound (first_watchdog 4) 0 armed_slot (first-IsSound 4 four-IsShape) (omega arith)
      (omega arith) (omega arith)

abbrev asked : Client
asked = record sample { watchdog = one_asked; queue = write_slot (fresh 4) 0 armed_slot }

round-Turned_example : Turned framework 60 60 asked (round framework (λ i. 60) asked)
round-Turned_example =
    round-Turned framework 60 60 (λ i. 60) asked one_asked-IsSound (λ i. (omega arith, omega arith))
