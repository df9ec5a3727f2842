-- ===== src/Queue/Init.antt =====
-- esrb_queue_init: which capacities it accepts, and what it leaves.
use endpoint_security.Base.{
  ℕ, ◌-◌, ◌^◌, ◌≤◌, ◌≡◌, ◌↔◌, Bool, true, some, arith, bit_and, power_of_two, pow-bit_and,
}
use endpoint_security.Queue.{Queue, fresh, init}

pub init-some :
    (c : ℕ) (a : Bool) {q : Queue}
    → init c a ≡ some q
    → (2 ≤ c) × (bit_and c (c - 1) ≡ 0) × (q ≡ fresh c)
unfolding init
init-some c a h = ground arith

init_power : (k : ℕ) → 2 ≤ 2 ^ k → init (2 ^ k) true ≡ some (fresh (2 ^ k))
unfolding init
init_power k h = ground (arith, pow-bit_and k)

-- With memory, esrb_queue_init succeeds for a capacity exactly when that is a power of two and
-- at least 2, and leaves an empty ring of that capacity whose mask is the capacity less one.
pub init_accepts : (c : ℕ) → (init c true ≡ some (fresh c)) ↔ ((2 ≤ c) × (k : ℕ) × (c ≡ 2 ^ k))
init_accepts c = (
  λ e.
      let (two, bits, _) = init-some c true e in
      let (k, p) = power_of_two c (omega arith) bits in (two, k, p),
  λ (two, k, p). rw p (init_power k (omega (arith, two))),
)
