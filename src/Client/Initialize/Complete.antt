-- ===== src/Client/Initialize/Complete.antt =====
-- ext/endpoint_security/client.c, client_initialize: all or nothing.
use native.Mathlib.Nat.{le-div_iff_mul-le, div-lt_iff_lt-mul}
use endpoint_security.Base.{
  ℕ, ◌-◌, ◌*◌, ◌/◌, ◌^◌, ◌<◌, ◌≤◌, ◌≡◌, ◌⊎◌, inl, inr, refl, ap, ◌∙◌, subst, subst⁻¹, Bool, true,
  false, not, Option, none, some, [], if-both, arith,
}
use endpoint_security.Esapi.{AuthResult}
use endpoint_security.Queue
use endpoint_security.Queue.{Queue, fresh}
use endpoint_security.Queue.Init.{init-some}
use endpoint_security.Queue.Shape.{IsShape, init-IsShape}
use endpoint_security.Queue.Valid.{IsValid}
use endpoint_security.Queue.Fresh.{fresh-IsValid}
use endpoint_security.Queue.Calls.{contents}
use endpoint_security.Watchdog
use endpoint_security.Watchdog.{Watchdog}
use endpoint_security.Watchdog.Requests.{IsRing, requested}
use endpoint_security.Watchdog.Fresh.{first_watchdog, first-IsRing, watchdog_made}
use endpoint_security.Client.{Client}
use endpoint_security.Client.Initialize.{
  Options, NewClientResult, new_success, err_invalid_argument, err_internal, err_not_entitled,
  err_not_permitted, err_not_privileged, err_too_many_clients, System, Held, nothing, margin_ticks,
  new_client, default_of, margin_fits, check_on_full, auth_of, after_new_client, acquire, build,
  with_auth, with_on_full, initialize,
}
use endpoint_security.Ruby.{Error, Result, raised, returned}

abbrev everything : Held
everything = record { ring = true; heap = true; pipe = true; thread = true }

-- A client that can take messages
pub record IsOpen (capacity : ℕ) (c : Client) : Type 0 where
  pub ring : IsValid c.queue
  pub empty : contents c.queue ≡ []
  pub size : c.queue.capacity ≡ capacity
  pub requests : IsRing c.watchdog
  pub none_due : requested c.watchdog ≡ []
  pub heap_empty : c.watchdog.heap_size ≡ 0
  pub not_closed : c.closed ≡ false

-- Nothing is left of a client that could not be made.
abbrev pub AllOrNothing : ℕ → Held × Result Client → Type 0
AllOrNothing capacity (h, raised e) = h ≡ nothing
AllOrNothing capacity (h, returned c) = (h ≡ everything) × IsOpen capacity c

module _ (s : System) (o : Options) (auth : AuthResult) (n : ℕ) (shape : IsShape n (n - 1)) where
  made-IsOpen : IsOpen n (new_client s o auth (fresh n) (first_watchdog n))
  made-IsOpen = record {
    ring = fresh-IsValid n shape;
    empty = refl;
    size = refl;
    requests = first-IsRing n shape;
    none_due = refl;
    heap_empty = refl;
    not_closed = refl;
  }

  -- The framework's answer decides, with everything acquired.
  answered_lem :
      (r : NewClientResult)
      → AllOrNothing n
          (after_new_client r everything (new_client s o auth (fresh n) (first_watchdog n)))
  answered_lem new_success = (refl, made-IsOpen)
  answered_lem err_invalid_argument = refl
  answered_lem err_internal = refl
  answered_lem err_not_entitled = refl
  answered_lem err_not_permitted = refl
  answered_lem err_not_privileged = refl
  answered_lem err_too_many_clients = refl

  acquire_lem :
      (made : Bool)
      → AllOrNothing n
          (acquire s o auth (record nothing { ring = true }) (fresh n) (Watchdog.init n made))
  unfolding acquire
  acquire_lem made = elim (watchdog_made n made) [
    | inl e ↦
        subst⁻¹
          (λ w. AllOrNothing n (acquire s o auth (record nothing { ring = true }) (fresh n) w)) e
          refl
    | inr e ↦
        subst⁻¹
          (λ w. AllOrNothing n (acquire s o auth (record nothing { ring = true }) (fresh n) w)) e
          (if-both (AllOrNothing n) (not s.pipe_made) _ _ refl (
            if-both (AllOrNothing n) (not s.pipe_nonblocking) _ _ refl (
              if-both (AllOrNothing n) (not s.thread_created) _ _ refl
                (answered_lem s.new_client))))
  ]

queue_made :
    (n : ℕ) (a : Bool)
    → n ≤ 2 ^ 61
    → (Queue.init n a ≡ none) ⊎ ((Queue.init n a ≡ some (fresh n)) × IsShape n (n - 1))
queue_made n a small = go (Queue.init n a) refl
  where
    go :
        (r : Option Queue)
        → Queue.init n a ≡ r
        → (Queue.init n a ≡ none) ⊎ ((Queue.init n a ≡ some (fresh n)) × IsShape n (n - 1))
    go none e = inl e
    go (some q) e =
        let (two, bits, same) = init-some n a e in
        inr
          (e ∙ ap some same, subst (λ u. IsShape u.capacity u.mask) same (init-IsShape n a e small))

build_lem :
    (s : System) (o : Options) (auth : AuthResult) (n : ℕ)
    → n ≤ 2 ^ 61
    → AllOrNothing n (build s o auth (Queue.init n s.queue_memory))
unfolding build
build_lem s o auth n small = elim (queue_made n s.queue_memory small) [
  | inl e ↦ subst⁻¹ (λ q. AllOrNothing n (build s o auth q)) e refl
  | inr (e, shape) ↦
      subst⁻¹ (λ q. AllOrNothing n (build s o auth q)) e
        (acquire_lem s o auth n shape s.watchdog_memory)
]

auth_lem :
    (s : System) (o : Options) (r : Result AuthResult)
    → default_of 8192 o.queue_depth ≤ 2 ^ 61
    → AllOrNothing (default_of 8192 o.queue_depth) (with_auth s o r)
unfolding with_auth
auth_lem s o (raised e) small = refl
auth_lem s o (returned auth) small =
    if-both (AllOrNothing (default_of 8192 o.queue_depth)) (margin_fits o.deadline_margin) _ _
      (build_lem s o auth (default_of 8192 o.queue_depth) small) refl

on_full_lem :
    (s : System) (o : Options) (r : Option Error)
    → default_of 8192 o.queue_depth ≤ 2 ^ 61
    → AllOrNothing (default_of 8192 o.queue_depth) (with_on_full s o r)
unfolding with_on_full
on_full_lem s o (some e) small = refl
on_full_lem s o none small = auth_lem s o (auth_of o.auth_default) small

-- client_initialize either raises and holds nothing of what it acquired (neither the ring, the
-- watchdog's arrays, the pipe nor the thread), whichever step failed; or it returns with all of
-- them, and the client is open, with an empty, valid queue of the capacity that was asked for
-- (8192 by default), no request and no deadline. The capacity is taken to be at most 2^61.
pub initialize_lem :
    (s : System) (o : Options)
    → default_of 8192 o.queue_depth ≤ 2 ^ 61
    → AllOrNothing (default_of 8192 o.queue_depth) (initialize s o)
unfolding initialize
initialize_lem s o small = on_full_lem s o (check_on_full o.on_full) small

-- The margin in ticks is the exact quotient, cut to a whole number, whenever the product fits 64
-- bits; it never wraps, and is the largest number when the product does not fit. The denominator
-- is positive.
pub margin_ticks_lem :
    (denom numer nanoseconds : ℕ)
    → 0 < denom
    → (nanoseconds * denom < 2 ^ 64
        → margin_ticks denom numer nanoseconds ≡ nanoseconds * denom / numer)
      × (2 ^ 64 ≤ nanoseconds * denom → margin_ticks denom numer nanoseconds ≡ 2 ^ 64 - 1)
unfolding margin_ticks
margin_ticks_lem denom numer nanoseconds some_denom =
    let fits = le-div_iff_mul-le {x = nanoseconds} {y = 2 ^ 64 - 1} some_denom in
    (
      λ small.
          let below : nanoseconds ≤ (2 ^ 64 - 1) / denom = fits.1 (omega arith) in
          ground (arith, below),
      λ large.
          let above : (2 ^ 64 - 1) / denom < nanoseconds =
            (div-lt_iff_lt-mul some_denom).1 (omega arith) in
          ground (arith, above),
    )
