-- ===== src/Lsps0/Json/Amounts.antt =====
-- `string_amount` and `string_amount_option` of src/lsps0/ser.rs: amounts as JSON strings.
use lightning_liquidity.Base.{ℕ, ◌<◌, ◌≡◌, Option, none, some, arith}
use lightning_liquidity.Base.Options.{◌>>=◌}
use lightning_liquidity.Base.Words.{u64_mod}
use lightning_liquidity.Types.{Text}
use lightning_liquidity.Utils.Decimal.{print_u64, parse_u64, parse-print_u64}
use lightning_liquidity.Lsps0.Json.{Serde}
use lightning_liquidity.Lsps0.Json.Faithful.{IsFaithful}

module _ {V : Type 0} (s : Serde V) where
  unfoldable pub serialize_amount : ℕ → V
  serialize_amount x = s.text (print_u64 x)

  unfoldable pub deserialize_amount : V → Option ℕ
  deserialize_amount v = do buf ← s.from_string v; parse_u64 buf

  unfoldable pub serialize_amount_option : Option ℕ → V
  serialize_amount_option none = s.null
  serialize_amount_option (some x) = s.text (print_u64 x)

  -- `null` is no amount; a string has to be one.
  abbrev pub amount_of : Option Text → Option (Option ℕ)
  amount_of none = some none
  amount_of (some buf) = do x ← parse_u64 buf; some (some x)

  unfoldable pub deserialize_amount_option : V → Option (Option ℕ)
  deserialize_amount_option v = do buf ← s.from_optional v; amount_of buf

-- An amount that fits into a `u64`, if there is one.
abbrev pub IsAmount : Option ℕ → Type 0
IsAmount none = Unit
IsAmount (some x) = x < u64_mod

module _ {V : Type 0} (s : Serde V) (h : IsFaithful s) where
  pub deserialize-serialize_amount :
      (x : ℕ) → x < u64_mod → deserialize_amount s (serialize_amount s x) ≡ some x
  unfolding serialize_amount deserialize_amount
  deserialize-serialize_amount x k = ground (arith, h.string (print_u64 x), parse-print_u64 x k)

  -- With faithful serde crates, an optional amount that fits into 64 bits is read back from its
  -- JSON as the same optional amount.
  pub deserialize-serialize_amount_option :
      (x : Option ℕ)
      → IsAmount x
      → deserialize_amount_option s (serialize_amount_option s x) ≡ some x
  unfolding serialize_amount_option deserialize_amount_option
  deserialize-serialize_amount_option none k = ground (arith, h.null_lem)
  deserialize-serialize_amount_option (some x) k =
      ground (arith, h.optional (print_u64 x), parse-print_u64 x k)
