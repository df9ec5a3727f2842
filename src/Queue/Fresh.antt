-- ===== src/Queue/Fresh.antt =====
-- queue.c: the ring that esrb_queue_init leaves.
use native.Mathlib.Decide.{dec_lt}
use endpoint_security.Base.{ℕ, zero, suc, ◌-◌, ◌<◌, ◌≡◌, inl, bit_and, arith}
use endpoint_security.Queue.{fresh}
use endpoint_security.Queue.Shape.{IsShape}
use endpoint_security.Queue.Valid.{IsValid}

-- Below the capacity the mask does nothing.
pub unmasked : {n m : ℕ} → IsShape n m → (k p : ℕ) → p < k → p < n → bit_and p m ≡ p
unmasked shape zero p l b = omega arith
unmasked {m = m} shape (suc k) p l b = elim (dec_lt (bit_and p m) p) [
  | yes less ↦
      elim (shape.distinct (bit_and p m) p less (omega arith)
        (unmasked shape k (bit_and p m) (omega arith) (omega arith))) [ ]
  | no kept ↦ omega (arith, shape.least p)
]

pub fresh-IsValid : (n : ℕ) → IsShape n (n - 1) → IsValid (fresh n)
fresh-IsValid n shape = record {
  shape = shape;
  ordered = omega arith;
  fits = omega arith;
  waiting = λ p a b. omega arith;
  vacant = λ p a b. inl (unmasked shape (suc p) p (omega arith) (omega arith));
}
