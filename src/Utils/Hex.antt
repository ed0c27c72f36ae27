-- ===== src/Utils/Hex.antt =====
-- Comparing the hexadecimal texts of src/utils.rs.
use lightning_liquidity.Base.{ℕ, ◌/◌, ◌%◌, ◌<◌, ◌≡◌, refl, List, [], ◌∷◌, All, arith}
use lightning_liquidity.Utils.{hex_digit, hex_str}

abbrev pub IsBytes : List ℕ → Type 0
IsBytes = All (λ (b : ℕ). b < 256)

hex_digit-injective : (a b : ℕ) → a < 16 → b < 16 → hex_digit a ≡ hex_digit b → a ≡ b
unfolding hex_digit
hex_digit-injective a b h k e = ground arith

byte_of_digits : (a b : ℕ) → a / 16 ≡ b / 16 → a % 16 ≡ b % 16 → a ≡ b
byte_of_digits a b h k = omega arith

-- Two strings of bytes with the same hexadecimal text are equal.
pub hex_str-injective :
    (xs ys : List ℕ) → IsBytes xs → IsBytes ys → hex_str xs ≡ hex_str ys → xs ≡ ys
unfolding hex_str
hex_str-injective [] [] h k e = refl
hex_str-injective [] (y ∷ ys) h k e = cc
hex_str-injective (x ∷ xs) [] h k e = cc
hex_str-injective (x ∷ xs) (y ∷ ys) h k e = ground (
  arith,
  hex_digit-injective (x / 16) (y / 16),
  hex_digit-injective (x % 16) (y % 16),
  hex_str-injective xs ys h.1 k.1,
)
