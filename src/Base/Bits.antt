-- ===== src/Base/Bits.antt =====
-- `position & mask` and the power-of-two test of the ring buffers.
use Prim.Native.Nat.{
  ℕ, zero, suc, ◌+◌, ◌-◌, ◌*◌, ◌/◌, ◌%◌, ◌^◌, ◌≤◌, ◌<◌, min, bit_and, digits, bit_and-bitwise,
}
use mathlib.Core.Path.{◌≡◌, refl, ap, ◌∙◌}
use native.Mathlib.Nat.{pow-suc, mod-eq_of_lt, mod-lt, div-add-mod, add-mul-mod_self_left, mod_self}
use native.Mathlib.Decide.{ℕ_discrete}
use native.Mathlib.Omega.{arith}

-- The defining recursion of the native operation, with any bound from the first argument up.
abbrev and_fuel : ℕ → ℕ → ℕ → ℕ
and_fuel n a b = digits (λ _. zero) min n a b

and_fuel_irrelevant : (n m a b : ℕ) → a ≤ n → a ≤ m → and_fuel n a b ≡ and_fuel m a b
and_fuel_irrelevant zero zero a b p q = refl
and_fuel_irrelevant zero (suc m) zero b p q = refl
and_fuel_irrelevant zero (suc m) (suc a) b p q = absurd (omega arith)
and_fuel_irrelevant (suc n) zero zero b p q = refl
and_fuel_irrelevant (suc n) zero (suc a) b p q = absurd (omega arith)
and_fuel_irrelevant (suc n) (suc m) zero b p q = refl
and_fuel_irrelevant (suc n) (suc m) (suc a) b p q =
    omega (arith, and_fuel_irrelevant n m (suc a / 2) (b / 2) (omega arith) (omega arith))

zero-and : (b : ℕ) → bit_and 0 b ≡ 0
zero-and b = bit_and-bitwise 0 b

and_halves : (a b : ℕ) → bit_and a b ≡ bit_and (a / 2) (b / 2) * 2 + min (a % 2) (b % 2)
and_halves zero b = omega (arith, zero-and b, zero-and (b / 2))
and_halves (suc a) b = omega (
  arith,
  bit_and-bitwise (suc a) b,
  bit_and-bitwise (suc a / 2) (b / 2),
  and_fuel_irrelevant a (suc a / 2) (suc a / 2) (b / 2) (omega arith) (omega arith),
)

and_self_fuel : (n a : ℕ) → a ≤ n → bit_and a a ≡ a
and_self_fuel n zero h = refl
and_self_fuel zero (suc a) h = absurd (omega arith)
and_self_fuel (suc n) (suc a) h =
    omega (arith, and_halves (suc a) (suc a), and_self_fuel n (suc a / 2) (omega arith))

and-zero_fuel : (n a : ℕ) → a ≤ n → bit_and a 0 ≡ 0
and-zero_fuel n zero h = refl
and-zero_fuel zero (suc a) h = absurd (omega arith)
and-zero_fuel (suc n) (suc a) h =
    omega (arith, and_halves (suc a) 0, and-zero_fuel n (suc a / 2) (omega arith))

pub pow_pos : (k : ℕ) → 0 < 2 ^ k
pow_pos zero = omega arith
pow_pos (suc k) = omega (arith, pow-suc 2 k, pow_pos k)

mod_double : (a m : ℕ) → 0 < m → a % (m * 2) ≡ (a / 2) % m * 2 + a % 2
mod_double a m h =
    ap (λ x. x % (m * 2)) whole ∙ add-mul-mod_self_left r (m * 2) t ∙ mod-eq_of_lt small
  where
    r : ℕ
    r = (a / 2) % m * 2 + a % 2

    t : ℕ
    t = a / 2 / m

    whole : a ≡ r + m * 2 * t
    whole = omega (arith, div-add-mod (a / 2) m)

    small : r < m * 2
    small = omega (arith, mod-lt (a / 2) h)

-- One more bit of the mask takes one more bit of the position.
mask_step :
    (m p : ℕ)
    → 0 < m
    → bit_and (p / 2) (m - 1) ≡ (p / 2) % m
    → bit_and p (m * 2 - 1) ≡ (p / 2) % m * 2 + p % 2
mask_step m p h ih =
    let half : (m * 2 - 1) / 2 ≡ m - 1 = omega arith in
    omega (arith, and_halves p (m * 2 - 1), ap (bit_and (p / 2)) half)

-- `position & mask` is the remainder by the capacity, when `mask` is `2 ^ k - 1`.
pub bit_and_mask : (k p : ℕ) → bit_and p (2 ^ k - 1) ≡ p % 2 ^ k
bit_and_mask zero p = omega (arith, and-zero_fuel p p (omega arith))
bit_and_mask (suc k) p =
    rw (pow-suc 2 k, mod_double p (2 ^ k) (pow_pos k))
      (mask_step (2 ^ k) p (pow_pos k) (bit_and_mask k (p / 2)))

-- For an even number the test halves; for an odd one above 1 it fails.
test_halves :
    (c : ℕ) → 1 < c → bit_and c (c - 1) ≡ 0 → (c ≡ c / 2 * 2) × (bit_and (c / 2) (c / 2 - 1) ≡ 0)
test_halves c p e = elim (ℕ_discrete (c % 2) 0) [
  | yes even ↦
      let half : (c - 1) / 2 ≡ c / 2 - 1 = omega arith in
      (omega arith, omega (arith, and_halves c (c - 1), ap (bit_and (c / 2)) half))
  | no odd ↦
      let half : (c - 1) / 2 ≡ c / 2 = omega arith in
      absurd (
        omega (
          arith,
          and_halves c (c - 1),
          ap (bit_and (c / 2)) half,
          and_self_fuel (c / 2) (c / 2) (omega arith),
        ))
]

-- `(c & (c - 1)) == 0` holds of powers of two only.
power_of_two_fuel : (n c : ℕ) → c ≤ n → 0 < c → bit_and c (c - 1) ≡ 0 → (k : ℕ) × (c ≡ 2 ^ k)
power_of_two_fuel zero c h p e = absurd (omega arith)
power_of_two_fuel (suc n) c h p e = elim (ℕ_discrete c 1) [
  | yes one ↦ (0, one)
  | no more ↦
      let (even, rest) = test_halves c (omega arith) e in
      let (k, q) = power_of_two_fuel n (c / 2) (omega arith) (omega arith) rest in
      (suc k, omega (arith, pow-suc 2 k))
]

pub power_of_two : (c : ℕ) → 0 < c → bit_and c (c - 1) ≡ 0 → (k : ℕ) × (c ≡ 2 ^ k)
power_of_two c p e = power_of_two_fuel c c (omega arith) p e

pub pow-bit_and : (k : ℕ) → bit_and (2 ^ k) (2 ^ k - 1) ≡ 0
pow-bit_and k = bit_and_mask k (2 ^ k) ∙ mod_self (2 ^ k)
