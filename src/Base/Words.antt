-- ===== src/Base/Words.antt =====
-- Machine words as native numbers: `uint64_t`, `size_t` and `uint32_t` wrap at their width.
use Prim.Native.Nat.{ℕ, ◌+◌, ◌-◌, ◌%◌, ◌^◌, ◌<◌}
use mathlib.Core.Path.{◌≡◌}
use native.Mathlib.Omega.{arith}
use endpoint_security.Base.Tests.{ltb, ◌==◌, if◌then◌else◌}

abbrev pub u64_mod : ℕ
u64_mod = 2 ^ 64

abbrev pub u64_max : ℕ
u64_max = 2 ^ 64 - 1

abbrev pub u32_mod : ℕ
u32_mod = 2 ^ 32

abbrev pub u32_max : ℕ
u32_max = 2 ^ 32 - 1

-- `a + b` and `a - b` on 64 bits. `-` on ℕ stops at 0, so the modulus is added first.
abbrev pub add64 : ℕ → ℕ → ℕ
add64 a b = (a + b) % u64_mod

abbrev pub sub64 : ℕ → ℕ → ℕ
sub64 a b = (a + u64_mod - b) % u64_mod

abbrev pub add32 : ℕ → ℕ → ℕ
add32 a b = (a + b) % u32_mod

abbrev pub sub32 : ℕ → ℕ → ℕ
sub32 a b = (a + u32_mod - b) % u32_mod

-- The three branches that the code takes on an `intptr_t` difference: zero, negative, positive.
pub data Difference : Type 0 where
  zero_diff negative_diff positive_diff : Difference

-- The sign of `(intptr_t)a - (intptr_t)b`, in two's complement.
unfoldable pub difference : ℕ → ℕ → Difference
difference a b =
    if sub64 a b == 0
    then zero_diff
    else if ltb (sub64 a b) (2 ^ 63)
    then positive_diff
    else negative_diff

-- Below 2^62 the sign is that of the true difference.
pub difference-zero : (a b : ℕ) → a < 2 ^ 62 → b < 2 ^ 62 → difference a b ≡ zero_diff → a ≡ b
unfolding difference
difference-zero a b ha hb h = ground arith

pub difference_self : (a b : ℕ) → a < 2 ^ 62 → a ≡ b → difference a b ≡ zero_diff
unfolding difference
difference_self a b ha h = ground arith

pub difference-negative :
    (a b : ℕ) → a < 2 ^ 62 → b < 2 ^ 62 → difference a b ≡ negative_diff → a < b
unfolding difference
difference-negative a b ha hb h = ground arith

pub difference_of_lt : (a b : ℕ) → a < b → b < 2 ^ 62 → difference a b ≡ negative_diff
unfolding difference
difference_of_lt a b h hb = ground arith

pub difference-positive :
    (a b : ℕ) → a < 2 ^ 62 → b < 2 ^ 62 → difference a b ≡ positive_diff → b < a
unfolding difference
difference-positive a b ha hb h = ground arith
