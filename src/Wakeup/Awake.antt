-- ===== src/Wakeup/Awake.antt =====
-- No wakeup is lost.
use endpoint_security.Base.{
  ℕ, suc, ◌<◌, ◌≡◌, ◌≢◌, inl, inr, refl, ap, sym, ◌∙◌, true, false, Bool-cases, update_self, arith,
}
use endpoint_security.Wakeup.{
  Notifier, idle, filling, notifying, nudging, writing, Dispatcher, waiting, rewriting, State,
  one_more, ThreadMove, claim, publish, nudge, win, lose, nudge_win, nudge_lose, write, Reach,
}
use endpoint_security.Wakeup.Invariant.{Owner, is_draining, is_rearming, Written-pos, Reach-IsAwake}

-- Whatever thread `t` does next, a byte is in the pipe after at most so many steps of it, and until
-- then it has a step to take; nobody else moves between.
pub data Writes (room t : ℕ) : ℕ → State → Type 0 where
  written : {n : ℕ} {s : State} → 0 < s.pipe → Writes room t n s
  goes_on :
      {n : ℕ} {s : State} (u : State)
      → ThreadMove room t s u
      → ((v : State) → ThreadMove room t s v → Writes room t n v)
      → Writes room t (suc n) s

-- A thread is inside of a call that ends in a byte in the pipe, within three steps.
abbrev pub Wakes : ℕ → State → Type 0
Wakes room s = (t : ℕ) × (s.thread t ≢ idle) × (s.thread t ≢ nudging) × Writes room t 3 s

module _ (room : ℕ) (some_room : 0 < room) (t : ℕ) where
  write_now : {n : ℕ} (s : State) → s.thread t ≡ writing → s.pipe ≡ 0 → Writes room t (suc n) s
  write_now {n} s e empty =
      goes_on _ (write 1 e (one_more (omega arith) (omega arith))) (λ v. only v)
    where
      only : (v : State) → ThreadMove room t s v → Writes room t n v
      only v (claim h) = cc
      only v (publish p h) = cc
      only v (nudge h) = cc
      only v (win p h f) = cc
      only v (lose p h f) = cc
      only v (nudge_win h f) = cc
      only v (nudge_lose h f) = cc
      only v (write m h w) = written (Written-pos room s.pipe m some_room w)

  notify_now :
      {n : ℕ} (s : State) (p : ℕ)
      → s.thread t ≡ notifying p
      → s.notified ≡ false
      → s.pipe ≡ 0
      → Writes room t (suc (suc n)) s
  notify_now {n} s p e f empty = goes_on _ (win p e f) (λ v. only v)
    where
      only : (v : State) → ThreadMove room t s v → Writes room t (suc n) v
      only v (claim h) = cc
      only v (publish q h) = cc
      only v (nudge h) = cc
      only v (win q h g) = write_now _ (update_self s.thread t writing) empty
      only v (lose q h g) = cc
      only v (nudge_win h g) = cc
      only v (nudge_lose h g) = cc
      only v (write m h w) = cc

  publish_now :
      (s : State) (p : ℕ)
      → s.thread t ≡ filling p
      → s.notified ≡ false
      → s.pipe ≡ 0
      → Writes room t 3 s
  publish_now s p e f empty = goes_on _ (publish p e) (λ v. only v)
    where
      only : (v : State) → ThreadMove room t s v → Writes room t 2 v
      only v (claim h) = cc
      only v (publish q h) = notify_now _ q (update_self s.thread t (notifying q)) f empty
      only v (nudge h) = cc
      only v (win q h g) = cc
      only v (lose q h g) = cc
      only v (nudge_win h g) = cc
      only v (nudge_lose h g) = cc
      only v (write m h w) = cc

  owner-Wakes :
      (s : State) (x : Notifier) (p : ℕ)
      → s.thread t ≡ x
      → Owner x p
      → s.notified ≡ false
      → s.pipe ≡ 0
      → Wakes room s
  owner-Wakes s (filling r) p e h f empty = (t, λ i. cc, λ i. cc, publish_now s r e f empty)
  owner-Wakes s (notifying r) p e h f empty = (t, λ i. cc, λ i. cc, notify_now s r e f empty)
  owner-Wakes s idle p e h f empty = elim h [ ]
  owner-Wakes s nudging p e h f empty = elim h [ ]
  owner-Wakes s writing p e h f empty = elim h [ ]

  writer-Wakes : (s : State) → s.thread t ≡ writing → s.pipe ≡ 0 → Wakes room s
  writer-Wakes s e empty = (t, λ i. cc, λ i. cc, write_now s e empty)

not_draining : (s : State) → s.dispatcher ≡ waiting → ¬ (is_draining s.dispatcher ≡ true)
not_draining s e h = let quiet = ap is_draining e in cc

waiting-ne-rewriting : ◌≢◌ {A = Dispatcher} waiting rewriting
waiting-ne-rewriting h = cc

-- No wakeup is lost, however the threads interleave from the start on, with a pipe that has room
-- for a byte: whenever the dispatcher waits for an empty pipe while a message is in the ring
-- (claimed, at least), some thread is inside of a call, with a message of its own or before its
-- `write`, that puts a byte into the pipe: whatever that thread does next, the byte is there after
-- at most three of its steps, if nobody else moves between.
pub no_lost_wakeup :
    {room : ℕ} {s : State}
    → 0 < room
    → Reach room s
    → s.dispatcher ≡ waiting
    → s.pipe ≡ 0
    → s.dequeue_position < s.enqueue_position
    → Wakes room s
no_lost_wakeup {room} {s} some_room r waits empty some_left =
    let v = Reach-IsAwake room some_room r in
    elim (Bool-cases s.notified) [
      | inr off ↦
          let (t, owner) =
            v.owned off (ap is_rearming waits) s.dequeue_position (omega arith) some_left in
          owner-Wakes room some_room t s (s.thread t) s.dequeue_position refl owner off empty
      | inl on ↦ elim (v.alarmed on) [
        | inl byte ↦ absurd (omega arith)
        | inr (inl (t, e)) ↦ writer-Wakes room some_room t s e empty
        | inr (inr (inl drains)) ↦ absurd (not_draining s waits drains)
        | inr (inr (inr writes)) ↦ absurd (waiting-ne-rewriting (sym waits ∙ writes))
      ]
    ]
