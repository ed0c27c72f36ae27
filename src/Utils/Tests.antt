-- ===== src/Utils/Tests.antt =====
-- The theorems on src/utils.rs at concrete inputs, and runs of the code.
use lightning_liquidity.Base.{ℕ, ◌≡◌, refl, some, List, [], ◌∷◌, arith}
use lightning_liquidity.Utils.Scid.{join_scid, to_scid, format_scid, intercept_scid_from}
use lightning_liquidity.Utils.Scid.Roundtrip.{to_scid-intercept_scid_from, to_scid-format_scid}

abbrev two_bytes : List ℕ
two_bytes = 10 ∷ 255 ∷ []

to_scid-intercept_scid_from_example :
    to_scid (intercept_scid_from 879744660079411201) ≡ some 879744660079411201
to_scid-intercept_scid_from_example = to_scid-intercept_scid_from 879744660079411201 (omega arith)

to_scid-format_scid_example : to_scid (format_scid 0 16777216 0) ≡ some (join_scid 0 16777216 0)
to_scid-format_scid_example =
    to_scid-format_scid 0 16777216 0 (omega arith) (omega arith) (omega arith)

-- A transaction index that is out of range spills into the block height.
spills : join_scid 0 16777216 0 ≡ join_scid 1 0 0
unfolding join_scid
spills = refl
