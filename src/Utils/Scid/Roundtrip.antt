-- ===== src/Utils/Scid/Roundtrip.antt =====
-- Reading back the human readable form of a short channel id.
use lightning_liquidity.Base.{ℕ, ◌<◌, ◌≡◌, refl, ap, ◌∙◌, some, [], ◌∷◌, ◌++◌, arith}
use lightning_liquidity.Base.Options.{◌>>=◌}
use lightning_liquidity.Base.Words.{u64_mod}
use lightning_liquidity.Types.{Text}
use lightning_liquidity.Utils.Decimal.{print_u64, IsDigits, print_u64-IsDigits, parse-print_u64}
use lightning_liquidity.Utils.Scid.{
  block_from_scid, tx_index_from_scid, vout_from_scid, onto_first, split, join_scid, format_scid,
  intercept_scid_from, to_scid,
}
use lightning_liquidity.Utils.Scid.Fields.{
  block_from_scid-lt, tx_index_from_scid-lt, vout_from_scid-lt, join_scid-fields,
}

split_last : (part : Text) → IsDigits part → split b'x' part ≡ part ∷ []
unfolding split onto_first
split_last [] d = refl
split_last (c ∷ cs) d = ground (arith, split_last cs d.1)

split_part :
    (part rest : Text) → IsDigits part → split b'x' (part ++ (b'x' ∷ rest)) ≡ part ∷ split b'x' rest
unfolding split onto_first
split_part [] rest d = refl
split_part (c ∷ cs) rest d = ground (arith, split_part cs rest d.1)

split_format :
    (block tx_index vout : ℕ)
    → split b'x' (format_scid block tx_index vout)
      ≡ print_u64 block ∷ print_u64 tx_index ∷ print_u64 vout ∷ []
unfolding format_scid
split_format block tx_index vout =
    split_part (print_u64 block) _ (print_u64-IsDigits block)
    ∙ ap (◌∷◌ (print_u64 block)) (
        split_part (print_u64 tx_index) _ (print_u64-IsDigits tx_index)
        ∙ ap (◌∷◌ (print_u64 tx_index)) (split_last (print_u64 vout) (print_u64-IsDigits vout)))

-- The text of any three `u64` fields is accepted, whether or not they fit their place in the id.
pub to_scid-format_scid :
    (block tx_index vout : ℕ)
    → block < u64_mod
    → tx_index < u64_mod
    → vout < u64_mod
    → to_scid (format_scid block tx_index vout) ≡ some (join_scid block tx_index vout)
unfolding to_scid
to_scid-format_scid block tx_index vout h k l =
    rw
      (
        split_format block tx_index vout,
        parse-print_u64 block h,
        ◌>>=◌,
        parse-print_u64 tx_index k,
        parse-print_u64 vout l,
      )
      refl

-- The text that the LSP sends for an intercept id is read back by the client as the same id.
pub to_scid-intercept_scid_from :
    (scid : ℕ) → scid < u64_mod → to_scid (intercept_scid_from scid) ≡ some scid
unfolding intercept_scid_from
to_scid-intercept_scid_from scid h =
    to_scid-format_scid (block_from_scid scid) (tx_index_from_scid scid) (vout_from_scid scid)
      (omega (arith, block_from_scid-lt scid h)) (omega (arith, tx_index_from_scid-lt scid))
      (omega (arith, vout_from_scid-lt scid))
    ∙ ap some (join_scid-fields scid h)
