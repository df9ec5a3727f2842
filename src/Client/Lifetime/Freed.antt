-- ===== src/Client/Lifetime/Freed.antt =====
-- ext/endpoint_security/client.c, client_free: in the process that made the client, in another one,
-- and for an object that was never initialized.
use native.Mathlib.Decide.{ℕ_discrete}
use endpoint_security.Base.{
  ℕ, ◌<◌, ◌^◌, ◌≡◌, ◌≢◌, ◌⊎◌, inl, inr, refl, ap, subst⁻¹, ◌∙◌, Bool-cases, true, false, ◌&&◌,
  Option, none, some, ◌==◌, arith,
}
use endpoint_security.Esapi.{Framework}
use endpoint_security.Queue.Valid.{IsValid}
use endpoint_security.Client.{Client}
use endpoint_security.Client.Handled.{Returns}
use endpoint_security.Client.Initialize.{Held, nothing, destroy_queue, destroy_watchdog, close_pipe}
use endpoint_security.Client.Close.{close_native}
use endpoint_security.Client.Close.Emptied.{Unread}
use endpoint_security.Client.Close.Closed.{IsClosed, close_native-IsClosed}
use endpoint_security.Client.Lifetime.{owned_here, joined, abandoned, client_allocate, client_free}

-- What client_free has done, by the process it runs in
abbrev pub IsFreed : Framework → Client → ℕ → Option (Client × Held) → Type 0
IsFreed es c pid none = ⊥
IsFreed es c pid (some (d, held)) =
    (held ≡ nothing)
    × (((c.owner_pid ≡ pid) × IsClosed es c d)
        ⊎ ((c.owner_pid ≢ pid)
            × (d.calls ≡ c.calls)
            × (d.client ≡ 0)
            × (d.closed ≡ true)
            × (d.watchdog_running ≡ false)
            × (d.queue ≡ c.queue)))

given_up : (k : Held) → k.thread ≡ false → close_pipe (destroy_watchdog (destroy_queue k)) ≡ nothing
given_up k e = ground (arith, e)

joined_thread :
    (c d : Client) (h : Held)
    → c.watchdog_thread_started ≡ h.thread
    → d.watchdog_thread_started ≡ false
    → (joined c d h).thread ≡ false
joined_thread c d h same gone = elim (Bool-cases c.watchdog_thread_started) [
  | inl t ↦ ground (arith, t, gone)
  | inr f ↦ ground (arith, f, same)
]

module _ (es : Framework) (c : Client) (pid : ℕ) (h : Held) where
  freed_here :
      (d : Client)
      → c.owner_pid ≡ pid
      → c.watchdog_thread_started ≡ h.thread
      → close_native es c ≡ some d
      → d.watchdog_thread_started ≡ false
      → client_free es c pid h ≡ some (d, nothing)
  unfolding client_free
  freed_here d same thread e gone =
      let here : owned_here c pid ≡ true = ground (arith, same) in
      (rw (client_free, e, here))
      ∙ ap (λ k. some (d, k)) (given_up (joined c d h) (joined_thread c d h thread gone))

  freed_elsewhere :
      c.owner_pid ≢ 0
      → c.owner_pid ≢ pid
      → h.thread ≡ false
      → client_free es c pid h ≡ some (abandoned c, nothing)
  unfolding client_free
  freed_elsewhere made other thread =
      let there : owned_here c pid ≡ false = ground (arith, made, other) in
      (rw (client_free, there)) ∙ ap (λ k. some (abandoned c, k)) (given_up h thread)

  closed-IsFreed :
      (r : Option Client)
      → c.owner_pid ≡ pid
      → c.watchdog_thread_started ≡ h.thread
      → close_native es c ≡ r
      → Returns r (IsClosed es c)
      → IsFreed es c pid (client_free es c pid h)
  closed-IsFreed none same thread e closed = elim closed [ ]
  closed-IsFreed (some d) same thread e closed =
      subst⁻¹ (IsFreed es c pid) (freed_here d same thread e closed.joined)
        (refl, inl (same, closed))

-- client_free of a client that was initialized, is not closed and has no callback running, with a
-- valid queue whose enqueue position is below 2^61 and whose slots nobody reads, where the process
-- has the watchdog thread if it was started and the process is the one that made the client: it
-- always returns, and the process holds nothing any more, not the ring, the watchdog's arrays, the
-- pipe or the thread. In the process that made the client it has been closed as client_close_native
-- closes it, everything answered and released; in any other process the framework, whose client
-- belongs to the parent, was asked for nothing, and the object is closed and forgets the
-- framework's client.
pub client_free-IsFreed :
    (es : Framework) (c : Client) (pid : ℕ) (h : Held)
    → c.owner_pid ≢ 0
    → c.closed ≡ false
    → c.active_callbacks ≡ 0
    → IsValid c.queue
    → c.queue.enqueue_position < 2 ^ 61
    → Unread c.queue
    → h.thread ≡ c.watchdog_thread_started && (c.owner_pid == pid)
    → IsFreed es c pid (client_free es c pid h)
client_free-IsFreed es c pid h made alive idle v few unread thread =
    elim (ℕ_discrete c.owner_pid pid) [
      | yes same ↦
          closed-IsFreed es c pid h (close_native es c) same (ground (arith, thread, same)) refl
            (close_native-IsClosed es c alive idle v few unread)
      | no other ↦
          subst⁻¹ (IsFreed es c pid)
            (freed_elsewhere es c pid h made other (ground (arith, thread, other)))
            (refl, inr (other, refl, refl, refl, refl, refl))
    ]

-- An object that was never initialized asks nothing of the framework either when it is freed, in
-- any process.
client_free-client_allocate :
    (es : Framework) (pid : ℕ)
    → client_free es client_allocate pid nothing ≡ some (client_allocate, nothing)
unfolding client_free
client_free-client_allocate es pid = refl
