-- ===== src/Types.antt =====
-- Identifiers that the crates `lightning`, `bitcoin` and `chrono` define. The library only copies
-- and compares them: an array of bytes of fixed size is the number that it spells.
use lightning_liquidity.Base.{ℕ, List}

abbrev pub PublicKey : Type 0
PublicKey = ℕ

abbrev pub ChannelId : Type 0
ChannelId = ℕ

abbrev pub PaymentHash : Type 0
PaymentHash = ℕ

abbrev pub InterceptId : Type 0
InterceptId = ℕ

-- A text is the list of its code points.
abbrev pub Text : Type 0
Text = List ℕ

abbrev pub RequestId : Type 0
RequestId = Text

-- `chrono::DateTime<Utc>`: an opaque value, which only `Clock` takes apart.
abbrev pub DateTime : Type 0
DateTime = ℕ

-- `i64`, with `negsuc n` for -(n + 1).
pub data ℤ : Type 0 where
  pos : ℕ → ℤ
  negsuc : ℕ → ℤ
