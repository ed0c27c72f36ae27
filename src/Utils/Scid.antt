-- ===== src/Utils/Scid.antt =====
-- The short channel ids of src/utils.rs, and `InterceptScid` of src/lsps2/msgs.rs.
pub mod Fields
pub mod Roundtrip
use Prim.Native.Nat.{bit_and, bit_or}
use lightning_liquidity.Base.{
  ℕ, ◌+◌, ◌*◌, ◌/◌, ◌%◌, ◌^◌, Option, none, some, List, [], ◌∷◌, ◌++◌, ◌==◌, if◌then◌else◌,
}
use lightning_liquidity.Base.Options.{◌>>=◌}
use lightning_liquidity.Base.Words.{u64_mod}
use lightning_liquidity.Types.{Text}
use lightning_liquidity.Utils.Decimal.{print_u64, parse_u64}

abbrev pub max_scid_tx_index : ℕ
max_scid_tx_index = 0x00ffffff

abbrev pub max_scid_vout_index : ℕ
max_scid_vout_index = 0xffff

unfoldable pub block_from_scid : ℕ → ℕ
block_from_scid scid = scid / 2 ^ 40 % 2 ^ 32

unfoldable pub tx_index_from_scid : ℕ → ℕ
tx_index_from_scid scid = bit_and (scid / 2 ^ 16) max_scid_tx_index % 2 ^ 32

unfoldable pub vout_from_scid : ℕ → ℕ
vout_from_scid scid = bit_and scid max_scid_vout_index % 2 ^ 16

-- `str::split`: the parts between the occurrences of a character, one at least.
unfoldable pub onto_first : ℕ → List Text → List Text
onto_first c [] = (c ∷ []) ∷ []
onto_first c (part ∷ parts) = (c ∷ part) ∷ parts

unfoldable pub split : ℕ → Text → List Text
unfolding onto_first
split d [] = [] ∷ []
split d (c ∷ cs) = let rest = split d cs in if c == d then [] ∷ rest else onto_first c rest

abbrev pub next_part : List Text → Option (Text × List Text)
next_part [] = none
next_part (part ∷ parts) = some (part, parts)

-- `(block << 40) | (tx_index << 16) | vout_index` in a `u64`.
unfoldable pub join_scid : ℕ → ℕ → ℕ → ℕ
join_scid block tx_index vout_index =
    bit_or (bit_or (block * 2 ^ 40 % u64_mod) (tx_index * 2 ^ 16 % u64_mod)) vout_index

-- What follows the third part is not looked at.
unfoldable pub scid_from_human_readable_string : Text → Option ℕ
unfolding split join_scid
scid_from_human_readable_string human_readable_scid = do
  first ← next_part (split b'x' human_readable_scid)
  block ← parse_u64 first.0
  second ← next_part first.1
  tx_index ← parse_u64 second.0
  third ← next_part second.1
  vout_index ← parse_u64 third.0
  some (join_scid block tx_index vout_index)

-- `format!("{}x{}x{}", block, tx_index, vout)`.
unfoldable pub format_scid : ℕ → ℕ → ℕ → Text
format_scid block tx_index vout =
    print_u64 block ++ (b'x' ∷ (print_u64 tx_index ++ (b'x' ∷ print_u64 vout)))

-- `InterceptScid::from`.
unfoldable pub intercept_scid_from : ℕ → Text
unfolding block_from_scid tx_index_from_scid vout_from_scid format_scid
intercept_scid_from scid =
    format_scid (block_from_scid scid) (tx_index_from_scid scid) (vout_from_scid scid)

-- `InterceptScid::to_scid`.
unfoldable pub to_scid : Text → Option ℕ
unfolding scid_from_human_readable_string
to_scid text = scid_from_human_readable_string text
