-- ===== src/Queue/Shape.antt =====
-- What the proofs use of the capacity and the mask that esrb_queue_init accepts.
use native.Mathlib.Nat.{
  mod-eq_of_lt, mod-lt, mod-le, mod-add-mod, mod-eq-sub-mod, mod_self, suc-mod, add-mod_right,
}
use native.Mathlib.Decide.{dec_lt}
use endpoint_security.Base.{
  ℕ, Bool, some, suc, ◌+◌, ◌-◌, ◌%◌, ◌^◌, ◌≤◌, ◌<◌, ◌≡◌, ◌≢◌, ap, sym, ◌∙◌, bit_and, bit_and_mask,
  power_of_two, arith,
}
use endpoint_security.Queue.{Queue, init}
use endpoint_security.Queue.Init.{init-some}

pub record IsShape (capacity mask : ℕ) : Type 0 where
  pub two : 2 ≤ capacity
  pub small : capacity ≤ 2 ^ 61
  -- Neighbours are in different slots, and a lap later the slot is the same.
  pub apart : (p : ℕ) → bit_and (suc p) mask ≢ bit_and p mask
  pub lap : (p : ℕ) → bit_and (p + capacity) mask ≡ bit_and p mask
  pub inside : (p : ℕ) → bit_and p mask < capacity
  pub distinct : (p r : ℕ) → p < r → r < p + capacity → bit_and p mask ≢ bit_and r mask
  pub least : (p : ℕ) → bit_and p mask ≤ p

suc-mod-ne : (p c : ℕ) → 2 ≤ c → (suc p) % c ≢ p % c
suc-mod-ne p c h e = elim (dec_lt (suc (p % c)) c) [
  | yes below ↦ omega (arith, suc-mod p c, mod-eq_of_lt below)
  | no last ↦
      let r = mod-lt p {m = c} (omega arith) in
      let full : suc (p % c) ≡ c = omega arith in
      omega (arith, suc-mod p c, ap (λ x. x % c) full, mod_self c)
]

window-mod-ne : (p r c : ℕ) → p < r → r < p + c → p % c ≢ r % c
window-mod-ne p r c l h e = elim (dec_lt (p % c + (r - p)) c) [
  | yes below ↦ omega (arith, shifted, mod-eq_of_lt below)
  | no over ↦ omega (
    arith,
    shifted,
    mod-lt p {m = c} (omega arith),
    mod-eq-sub-mod {n = p % c + (r - p)} {m = c} (omega arith),
    mod-eq_of_lt {n = p % c + (r - p) - c} {m = c} (omega (arith, mod-lt p {m = c} (omega arith))),
  )
]
  where
    shifted : (p % c + (r - p)) % c ≡ r % c
    shifted = mod-add-mod p c (r - p) ∙ ap (λ x. x % c) (omega arith)

pub mask-IsShape : (k : ℕ) → 2 ≤ 2 ^ k → 2 ^ k ≤ 2 ^ 61 → IsShape (2 ^ k) (2 ^ k - 1)
mask-IsShape k h b = record {
  two = h;
  small = b;
  apart = λ p e. suc-mod-ne p (2 ^ k) h (omega (arith, bit_and_mask k p, bit_and_mask k (suc p)));
  lap = λ p. bit_and_mask k (p + 2 ^ k) ∙ add-mod_right p (2 ^ k) ∙ sym (bit_and_mask k p);
  inside = λ p. omega (arith, bit_and_mask k p, mod-lt p {m = 2 ^ k} (omega arith));
  distinct = λ p r l h e.
      window-mod-ne p r (2 ^ k) l h (omega (arith, bit_and_mask k p, bit_and_mask k r));
  least = λ p. omega (arith, bit_and_mask k p, mod-le p (2 ^ k));
}

pub init-IsShape :
    (c : ℕ) (a : Bool) {q : Queue} → init c a ≡ some q → c ≤ 2 ^ 61 → IsShape q.capacity q.mask
init-IsShape c a made small =
    let (two, bits, same) = init-some c a made in
    let (k, p) = power_of_two c (omega arith) bits in
    rw (same, p) (mask-IsShape k (omega arith) (omega arith))
