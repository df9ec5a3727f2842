-- ===== src/Client/Dispatch/Drains.antt =====
-- ext/endpoint_security/client.c, client_drain as a whole.
use endpoint_security.Base.{
  ℕ, ◌^◌, ◌<◌, ◌≡◌, ◌≢◌, ◌⊎◌, refl, ap, subst⁻¹, ◌∙◌, true, false, Option, none, some, List, arith,
}
use endpoint_security.Queue.Valid.{IsValid}
use endpoint_security.Client.{Client}
use native.Mathlib.Decide.{ℕ_discrete}
use endpoint_security.Ruby.{Error, forked_client_error, client_error, Result, raised, returned}
use endpoint_security.Client.Access.{get_open_client}
use endpoint_security.Client.Dispatch.{drain, client_drain}
use endpoint_security.Client.Dispatch.Drained.{ReturnsSlots, Drained, drain-Drained}

-- How client_drain ends: it raises and changes nothing, or hands over slots.
abbrev pub Drains : ℕ → Client → ℕ → Option (Client × Result (List ℕ)) → Type 0
Drains maximum c pid none = ⊥
Drains maximum c pid (some (d, raised e)) =
    (d ≡ c)
    × (((c.owner_pid ≢ pid) × (e ≡ forked_client_error))
        ⊎ ((c.owner_pid ≡ pid) × (c.closed ≡ true) × (e ≡ client_error)))
Drains maximum c pid (some (d, returned slots)) =
    (c.owner_pid ≡ pid) × (c.closed ≡ false) × Drained maximum c d slots

-- get_open_client on each kind of client
abbrev Opened : Client → ℕ → Result Client → Type 0
Opened c pid (raised e) =
    ((c.owner_pid ≢ pid) × (e ≡ forked_client_error))
    ⊎ ((c.owner_pid ≡ pid) × (c.closed ≡ true) × (e ≡ client_error))
Opened c pid (returned d) = (c.owner_pid ≡ pid) × (c.closed ≡ false) × (d ≡ c)

opened : (c : Client) (pid : ℕ) → Opened c pid (get_open_client c pid)
unfolding get_open_client
opened c pid = elim (ℕ_discrete c.owner_pid pid) [
  | no other ↦ ground (arith, other)
  | yes same ↦ ground (arith, same)
]

client_drain_raised :
    (maximum : ℕ) (c : Client) (pid : ℕ) (e : Error)
    → get_open_client c pid ≡ raised e
    → client_drain maximum c pid ≡ some (c, raised e)
unfolding client_drain
client_drain_raised maximum c pid e h = rw (client_drain, h)

client_drain_returned :
    (maximum : ℕ) (c d : Client) (pid : ℕ) (slots : List ℕ)
    → get_open_client c pid ≡ returned c
    → drain maximum c ≡ some (d, slots)
    → client_drain maximum c pid ≡ some (d, returned slots)
unfolding client_drain
client_drain_returned maximum c d pid slots h e = rw (client_drain, h, e)

open-Drains :
    (maximum : ℕ) (c : Client) (pid : ℕ) (r : Option (Client × List ℕ))
    → c.owner_pid ≡ pid
    → c.closed ≡ false
    → get_open_client c pid ≡ returned c
    → drain maximum c ≡ r
    → ReturnsSlots r (Drained maximum c)
    → Drains maximum c pid (client_drain maximum c pid)
open-Drains maximum c pid none same alive h e drained = elim drained [ ]
open-Drains maximum c pid (some (d, slots)) same alive h e drained =
    subst⁻¹ (Drains maximum c pid) (client_drain_returned maximum c d pid slots h e)
      (same, alive, drained)

either-Drains :
    (maximum : ℕ) (c : Client) (pid : ℕ) (r : Result Client)
    → get_open_client c pid ≡ r
    → Opened c pid r
    → ReturnsSlots (drain maximum c) (Drained maximum c)
    → Drains maximum c pid (client_drain maximum c pid)
either-Drains maximum c pid (raised e) h refused drained =
    subst⁻¹ (Drains maximum c pid) (client_drain_raised maximum c pid e h) (refl, refused)
either-Drains maximum c pid (returned d) h (same, alive, is_c) drained =
    open-Drains maximum c pid (drain maximum c) same alive (h ∙ ap (λ x. returned x) is_c) refl
      drained

-- client_drain, for a client with a valid queue whose enqueue position is below 2^61 and a
-- `delivered` below 2^64, always returns or raises. In another process than the client's it raises
-- ForkedClientError, on a closed client ClientError, and nothing changes. Else it hands over at
-- most `maximum` slots with the messages that have waited longest, in their order, stops early only
-- when nothing waits any more, and adds their number to `delivered`, which wraps at 2^64. If
-- messages are left then, `notified` is set and a byte is written to the pipe, so that the
-- dispatcher wakes again; if none are left, `notified` is clear and nothing is written, so that the
-- next message wakes it.
pub client_drain-Drains :
    (maximum : ℕ) (c : Client) (pid : ℕ)
    → IsValid c.queue
    → c.queue.enqueue_position < 2 ^ 61
    → c.delivered < 2 ^ 64
    → Drains maximum c pid (client_drain maximum c pid)
client_drain-Drains maximum c pid v few bounded =
    either-Drains maximum c pid (get_open_client c pid) refl (opened c pid)
      (drain-Drained maximum c v few bounded)
