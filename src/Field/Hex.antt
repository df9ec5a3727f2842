-- ===== src/Field/Hex.antt =====
-- ext/endpoint_security/field.c, hex_value.
use mathlib.Core.Path.{ap₂}
use endpoint_security.Base.{
  ℕ, ◌+◌, ◌-◌, ◌*◌, ◌/◌, ◌%◌, ◌<◌, ◌≡◌, refl, List, [], ◌∷◌, ltb, if◌then◌else◌, arith,
}
use mathlib.Core.Path.{ap₂}
use endpoint_security.Base.Lists.{length}
use endpoint_security.Field.{CString, digit, hex_value}

-- The value of a hexadecimal digit, and the bytes that pairs of them spell.
abbrev pub digit_value : ℕ → ℕ
digit_value d = if ltb d 58 then d - 48 else d - 87

abbrev pub bytes_of : CString → List ℕ
bytes_of (h ∷ l ∷ rest) = (digit_value h * 16 + digit_value l) ∷ bytes_of rest
bytes_of _ = []

abbrev pub AreBytes : List ℕ → Type 0
AreBytes [] = Unit {0}
AreBytes (b ∷ bytes) = (b < 256) × AreBytes bytes

digit_value-digit : (n : ℕ) → n < 16 → digit_value (digit n) ≡ n
digit_value-digit n small = ground arith

-- hex_value writes two digits for each byte, from which the bytes can be read back.
pub bytes_of-hex_value :
    (bytes : List ℕ)
    → AreBytes bytes
    → (bytes_of (hex_value bytes) ≡ bytes) × (length (hex_value bytes) ≡ 2 * length bytes)
unfolding hex_value
bytes_of-hex_value [] h = (refl, refl)
bytes_of-hex_value (b ∷ bytes) (small, h) =
    let (back, size) = bytes_of-hex_value bytes h in
    let byte : digit_value (digit (b / 16)) * 16 + digit_value (digit (b % 16)) ≡ b =
      omega (
        arith,
        digit_value-digit (b / 16) (omega arith),
        digit_value-digit (b % 16) (omega arith),
      ) in
    (ap₂ ◌∷◌ byte back, omega (arith, size))
