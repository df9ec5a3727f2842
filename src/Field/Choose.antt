-- ===== src/Field/Choose.antt =====
-- ext/endpoint_security/field.c: a run of `if (...) { return ...; }`, as a table.
use endpoint_security.Base.{Bool, List, [], ◌∷◌, true, false, if◌then◌else◌}

module _ {ℓ} {A : Type ℓ} where
  -- The value of the first test that holds, or the last resort
  unfoldable pub choose : List (Bool × A) → A → A
  choose [] last = last
  choose ((test, x) ∷ rest) last = let later = choose rest last in if test then x else later

  abbrev pub All : (A → Type 0) → List (Bool × A) → Type 0
  All P [] = Unit
  All P ((test, x) ∷ rest) = P x × All P rest

  pub choose-All :
      (P : A → Type 0) (entries : List (Bool × A)) (last : A)
      → All P entries
      → P last
      → P (choose entries last)
  unfolding choose
  choose-All P [] last h g = g
  choose-All P ((true, x) ∷ rest) last h g = h.0
  choose-All P ((false, x) ∷ rest) last h g = choose-All P rest last h.1 g
