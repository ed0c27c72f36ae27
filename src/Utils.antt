-- ===== src/Utils.antt =====
-- src/utils.rs: hexadecimal text and request ids. Short channel ids are in the child module.
pub mod Hex
pub mod Decimal
pub mod Scid
mod Tests
use lightning_liquidity.Base.{ℕ, zero, suc, ◌+◌, ◌-◌, ◌/◌, ◌%◌, List, [], ◌∷◌, ltb, if◌then◌else◌}
use lightning_liquidity.Types.{Text, RequestId}

unfoldable pub hex_digit : ℕ → ℕ
hex_digit d = if ltb d 10 then b'0' + d else b'a' + (d - 10)

-- `{:02x}` of each byte.
unfoldable pub hex_str : List ℕ → Text
hex_str [] = []
hex_str (byte ∷ bytes) = hex_digit (byte / 16) ∷ hex_digit (byte % 16) ∷ hex_str bytes

-- `&bytes[0..n]`, of a slice that has at least `n` elements.
abbrev pub take {ℓ} : {A : Type ℓ} → ℕ → List A → List A
take zero xs = []
take (suc n) [] = []
take (suc n) (x ∷ xs) = x ∷ take n xs

-- The argument is what the entropy source returns: 32 random bytes.
unfoldable pub generate_request_id : List ℕ → RequestId
generate_request_id bytes = hex_str (take 16 bytes)
