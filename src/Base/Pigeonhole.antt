-- ===== src/Base/Pigeonhole.antt =====
-- More indices than values: two indices share a value.
use Prim.Native.Nat.{ℕ, zero, suc, ◌<◌}
use mathlib.Core.Path.{◌≡◌}
use mathlib.Core.Logic.{◌≢◌, ◌⊎◌, inl, inr}
use native.Mathlib.Decide.{ℕ_discrete}
use native.Mathlib.Omega.{arith}
use endpoint_security.Base.Tests.{◌==◌, if◌then◌else◌}

-- A value is taken below `n`, or it is not.
find_below :
    (n : ℕ) (f : ℕ → ℕ) (a : ℕ) → ((i : ℕ) × (i < n) × (f i ≡ a)) ⊎ ((i : ℕ) → i < n → f i ≢ a)
find_below zero f a = inr (λ i l. omega arith)
find_below (suc n) f a = elim (ℕ_discrete (f n) a) [
  | yes here ↦ inl (n, omega arith, here)
  | no other ↦ elim (find_below n f a) [
    | inl (i, l, e) ↦ inl (i, omega arith, e)
    | inr none_below ↦ inr (λ i l. elim (ℕ_discrete i n) [
      | yes last ↦ ground arith
      | no before ↦ none_below i (omega arith)
    ])
  ]
]

-- The values below `n` but for the last one, which stands in for `n`.
abbrev without_last : ℕ → (ℕ → ℕ) → ℕ → ℕ
without_last n f i = if f i == n then f (suc n) else f i

pub pigeonhole :
    (n : ℕ) (f : ℕ → ℕ)
    → ((i : ℕ) → i < suc n → f i < n)
    → (i : ℕ) × (j : ℕ) × (i < j) × (j < suc n) × (f i ≡ f j)
pigeonhole zero f h = absurd (omega (arith, h 0 (omega arith)))
pigeonhole (suc n) f h = elim (find_below (suc n) f (f (suc n))) [
  | inl (i, l, e) ↦ (i, suc n, l, omega arith, e)
  | inr unique ↦
      let (i, j, l, m, e) =
        pigeonhole n (without_last n f) (λ i l. ground (arith, unique i, h i, h (suc n))) in
      (i, j, l, omega arith, ground (arith, unique i, unique j))
]
