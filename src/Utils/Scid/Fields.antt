-- ===== src/Utils/Scid/Fields.antt =====
-- The three fields of a short channel id, in arithmetic.
use Prim.Native.Nat.{bit_or}
use lightning_liquidity.Base.{ℕ, ◌+◌, ◌*◌, ◌/◌, ◌%◌, ◌^◌, ◌<◌, ◌≡◌, ap, ap₂, ◌∙◌, arith}
use lightning_liquidity.Base.Words.{u64_mod}
use lightning_liquidity.Base.Bits.{bit_and-ones, bit_or-fields, weight}
use lightning_liquidity.Utils.Scid.{block_from_scid, tx_index_from_scid, vout_from_scid, join_scid}

block_value : (scid : ℕ) → scid < u64_mod → block_from_scid scid ≡ scid / 2 ^ 40
unfolding block_from_scid
block_value scid h = omega arith

tx_index_value : (scid : ℕ) → tx_index_from_scid scid ≡ scid / 2 ^ 16 % 2 ^ 24
unfolding tx_index_from_scid
tx_index_value scid = omega (arith, bit_and-ones 24 (scid / 2 ^ 16))

vout_value : (scid : ℕ) → vout_from_scid scid ≡ scid % 2 ^ 16
unfolding vout_from_scid
vout_value scid = omega (arith, bit_and-ones 16 scid)

pub block_from_scid-lt : (scid : ℕ) → scid < u64_mod → block_from_scid scid < 2 ^ 24
block_from_scid-lt scid h = omega (arith, block_value scid h)

pub tx_index_from_scid-lt : (scid : ℕ) → tx_index_from_scid scid < 2 ^ 24
tx_index_from_scid-lt scid = omega (arith, tx_index_value scid)

pub vout_from_scid-lt : (scid : ℕ) → vout_from_scid scid < 2 ^ 16
vout_from_scid-lt scid = omega (arith, vout_value scid)

-- With fields in range the bits do not overlap.
pub join_scid-sum :
    (block tx_index vout : ℕ)
    → block < 2 ^ 24
    → tx_index < 2 ^ 24
    → vout < 2 ^ 16
    → join_scid block tx_index vout ≡ block * 2 ^ 40 + tx_index * 2 ^ 16 + vout
unfolding join_scid
join_scid-sum block tx_index vout h k l =
    ap (λ (w : ℕ). bit_or w vout)
      (ap₂ bit_or shifted_block shifted_index
        ∙ bit_or-fields 40 block (tx_index * 2 ^ 16) (omega arith)
        ∙ regroup)
    ∙ bit_or-fields 16 (block * 2 ^ 24 + tx_index) vout (omega arith)
    ∙ omega arith
  where
    shifted_block : block * 2 ^ 40 % u64_mod ≡ block * weight 40
    shifted_block = omega arith

    shifted_index : tx_index * 2 ^ 16 % u64_mod ≡ tx_index * 2 ^ 16
    shifted_index = omega arith

    regroup : block * weight 40 + tx_index * 2 ^ 16 ≡ (block * 2 ^ 24 + tx_index) * weight 16
    regroup = omega arith

-- The fields of a joined id are those that it was joined from.
fields-join_scid :
    (block tx_index vout : ℕ)
    → block < 2 ^ 24
    → tx_index < 2 ^ 24
    → vout < 2 ^ 16
    → let scid = join_scid block tx_index vout in
      (block_from_scid scid ≡ block)
      × (tx_index_from_scid scid ≡ tx_index)
      × (vout_from_scid scid ≡ vout)
fields-join_scid block tx_index vout h k l = (
  omega (
    arith,
    join_scid-sum block tx_index vout h k l,
    block_value scid (omega (arith, join_scid-sum block tx_index vout h k l)),
  ),
  omega (arith, join_scid-sum block tx_index vout h k l, tx_index_value scid),
  omega (arith, join_scid-sum block tx_index vout h k l, vout_value scid),
)
  where
    scid : ℕ
    scid = join_scid block tx_index vout

pub join_scid-fields :
    (scid : ℕ)
    → scid < u64_mod
    → join_scid (block_from_scid scid) (tx_index_from_scid scid) (vout_from_scid scid) ≡ scid
join_scid-fields scid h = omega (
  arith,
  join_scid-sum (block_from_scid scid) (tx_index_from_scid scid) (vout_from_scid scid)
      (block_from_scid-lt scid h) (tx_index_from_scid-lt scid) (vout_from_scid-lt scid),
  block_value scid h,
  tx_index_value scid,
  vout_value scid,
)
