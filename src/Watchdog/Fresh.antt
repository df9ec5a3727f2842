-- ===== src/Watchdog/Fresh.antt =====
-- watchdog.c: what esrb_watchdog_init leaves.
use endpoint_security.Base.{
  ℕ, suc, ◌-◌, ◌≡◌, ◌⊎◌, inl, inr, refl, Bool, true, false, none, some, u64_max, arith,
}
use endpoint_security.Queue.Shape.{IsShape}
use endpoint_security.Queue.Fresh.{unmasked}
use endpoint_security.Watchdog
use endpoint_security.Watchdog.{Watchdog}
use endpoint_security.Watchdog.Requests.{IsRing}

-- What esrb_watchdog_init leaves
abbrev pub first_watchdog : ℕ → Watchdog
first_watchdog n = record {
  capacity = n;
  mask = n - 1;
  requests = λ index. record { sequence = index; slot = 0; position = 0; fire_at = 0 };
  enqueue_position = 0;
  dequeue_position = 0;
  heap = λ _. record { slot = 0; position = 0; fire_at = 0 };
  heap_size = 0;
  watchdog_index = λ _. u64_max;
}

pub first-IsRing : (n : ℕ) → IsShape n (n - 1) → IsRing (first_watchdog n)
first-IsRing n shape = record {
  shape = shape;
  ordered = omega arith;
  fits = omega arith;
  waiting = λ p a b. omega arith;
  vacant = λ p a b. unmasked shape (suc p) p (omega arith) (omega arith);
}

pub watchdog_made :
    (n : ℕ) (a : Bool) → (Watchdog.init n a ≡ none) ⊎ (Watchdog.init n a ≡ some (first_watchdog n))
unfolding Watchdog.init
watchdog_made n true = inr refl
watchdog_made n false = inl refl
