-- ===== src/Protocol/Wait.antt =====
-- esrb_queue_disarm does not wait for ever: the reader that it waits for leaves by its own steps, and
-- does not come back.
use native.Mathlib.Decide.{ℕ_discrete}
use endpoint_security.Base.{ℕ, suc, ◌+◌, ◌≡◌, ◌≢◌, ◌≤◌, ◌<◌, ◌⊎◌, inl, inr, refl, ◌∙◌, false, arith}
use endpoint_security.Slot.{pending}
use endpoint_security.Protocol.{
  State, Watch, resting, seen, inside, checked, matched, watch_sending, leaving, release_wait,
  release_store, WatchMove, look, enter, check, gone, same, other, win, lose, send, leave, Reach,
}
use endpoint_security.Protocol.Invariant.{readers_in}
use endpoint_security.Protocol.Exactly.{Reach-keeps}

-- So many steps of answer_due
pub data WatchRun : ℕ → State → State → Type 0 where
  done : {s : State} → WatchRun 0 s s
  more : {n : ℕ} {s t u : State} → WatchMove s t → WatchRun n t u → WatchRun (suc n) s u

-- The watchdog has left the slot and cannot enter it again.
abbrev pub Away : State → Type 0
Away s = (s.watch ≡ resting) × (s.readers ≡ 0) × ((t : State) → ¬ WatchMove s t)

-- Whatever steps the watchdog takes from `s`, they are at most three, they leave the owner of the
-- slot where it is, and until it is away it has a step to take.
abbrev pub Leaves : State → Type 0
Leaves s =
    (n : ℕ) (t : State)
    → WatchRun n s t
    → (n ≤ 3) × (t.phase ≡ s.phase) × (Away t ⊎ ((u : State) × WatchMove t u))

-- The slot is taken down: not occupied and not pending.
record Down (s : State) : Type 0 where
  vacant : s.occupied ≡ false
  settled : s.answer_state ≢ pending
  counted : s.readers ≡ readers_in s.watch

-- How many steps are left at most
abbrev distance : Watch → ℕ
distance resting = 0
distance (seen p) = 3
distance (inside p) = 2
distance (checked p) = 3
distance matched = 2
distance watch_sending = 2
distance leaving = 1

closer :
    {s t : State}
    → Down s
    → WatchMove s t
    → Down t × (distance t.watch < distance s.watch) × (t.phase ≡ s.phase)
closer d (look p e a b c o) = ground (arith, d.vacant, o)
closer d (enter p e) = (
  record { vacant = d.vacant; settled = d.settled; counted = ground (arith, d.counted, e) },
  ground (arith, e),
  refl,
)
closer d (check p e o) = ground (arith, d.vacant, o)
closer d (gone p e o) = (
  record { vacant = d.vacant; settled = d.settled; counted = ground (arith, d.counted, e) },
  ground (arith, e),
  refl,
)
closer d (same p e h) = (
  record { vacant = d.vacant; settled = d.settled; counted = ground (arith, d.counted, e) },
  ground (arith, e),
  refl,
)
closer d (other p e h) = (
  record { vacant = d.vacant; settled = d.settled; counted = ground (arith, d.counted, e) },
  ground (arith, e),
  refl,
)
closer d (win e h) = absurd (d.settled h)
closer d (lose e h) = (
  record { vacant = d.vacant; settled = d.settled; counted = ground (arith, d.counted, e) },
  ground (arith, e),
  refl,
)
closer d (send e) = (
  record { vacant = d.vacant; settled = d.settled; counted = ground (arith, d.counted, e) },
  ground (arith, e),
  refl,
)
closer d (leave e) = (
  record { vacant = d.vacant; settled = d.settled; counted = ground (arith, d.counted, e) },
  ground (arith, e),
  refl,
)

away : (s : State) → Down s → s.watch ≡ resting → Away s
away s d e =
    (e, ground (arith, d.counted, e), λ t mv. let (_, l, _) = closer d mv in ground (arith, l, e))

next_step : (s : State) (w : Watch) → s.watch ≡ w → Down s → Away s ⊎ ((t : State) × WatchMove s t)
next_step s resting e d = inl (away s d e)
next_step s (seen p) e d = inr (_, enter p e)
next_step s (inside p) e d = inr (_, gone p e d.vacant)
next_step s (checked p) e d = elim (ℕ_discrete s.position p) [
  | yes h ↦ inr (_, same p e h)
  | no h ↦ inr (_, other p e h)
]
next_step s matched e d = inr (_, lose e d.settled)
next_step s watch_sending e d = inr (_, send e)
next_step s leaving e d = inr (_, leave e)

run-Down :
    {n : ℕ} {s t : State}
    → Down s
    → WatchRun n s t
    → Down t × (n + distance t.watch ≤ distance s.watch) × (t.phase ≡ s.phase)
run-Down d done = (d, omega arith, refl)
run-Down d (more mv run) =
    let (d', l, p) = closer d mv in
    let (d'', l', p') = run-Down d' run in (d'', omega (arith, l, l'), p' ∙ p)

distance_le : (w : Watch) → distance w ≤ 3
distance_le resting = omega arith
distance_le (seen p) = omega arith
distance_le (inside p) = omega arith
distance_le (checked p) = omega arith
distance_le matched = omega arith
distance_le watch_sending = omega arith
distance_le leaving = omega arith

Down-Leaves : (s : State) → Down s → Leaves s
Down-Leaves s d n t run =
    let (d', l, p) = run-Down d run in
    (omega (arith, l, distance_le s.watch), p, next_step t t.watch refl d')

-- Both waits of a release end: while it waits for the readers of its slot, before the message goes
-- back or before the slot does, every run of the watchdog ends after at most three of its steps; until
-- then it always has a step to take, and at its end nobody reads the slot and the watchdog cannot
-- come back to it.
pub wait_ends :
    {s : State} → Reach s → (s.phase ≡ release_wait) ⊎ (s.phase ≡ release_store) → Leaves s
wait_ends {s} r (inl e) =
    let (v, h) = Reach-keeps r in
    Down-Leaves s
      (record { vacant = ground (arith, v); settled = ground (arith, v); counted = v.counted })
wait_ends {s} r (inr e) =
    let (v, h) = Reach-keeps r in
    Down-Leaves s
      (record { vacant = ground (arith, v); settled = ground (arith, v); counted = v.counted })
