-- ===== src/Lsps2/Fee.antt =====
-- `compute_opening_fee` of src/lsps2/utils.rs.
use lightning_liquidity.Base.{ℕ, ◌+◌, ◌*◌, ◌≤◌, ◌≡◌, ◌↔◌, max, Option, none, some, arith}
use lightning_liquidity.Base.Options.{◌>>=◌}
use lightning_liquidity.Base.Words.{u64_mod, checked_add, checked_mul, checked_div}

unfoldable pub compute_opening_fee : ℕ → ℕ → ℕ → Option ℕ
unfolding checked_add checked_mul checked_div
compute_opening_fee payment_size_msat opening_fee_min_fee_msat opening_fee_proportional = do
  product ← checked_mul payment_size_msat opening_fee_proportional
  rounded ← checked_add product 999999
  fee ← checked_div rounded 1000000
  some (max fee opening_fee_min_fee_msat)

-- The fee that the code computes is the least one that is at least the minimum fee and at least
-- `proportional` millionths of the payment.
pub compute_opening_fee-least :
    (size min_fee proportional f : ℕ)
    → compute_opening_fee size min_fee proportional ≡ some f
    → (min_fee ≤ f)
      × (size * proportional ≤ f * 1000000)
      × ((g : ℕ) → min_fee ≤ g → size * proportional ≤ g * 1000000 → f ≤ g)
unfolding compute_opening_fee
compute_opening_fee-least size min_fee proportional f h =
    (ground arith, ground arith, λ g low enough. ground arith)

-- There is no fee exactly if the product, rounded up, does not fit a `u64`.
compute_opening_fee-eq-none :
    (size min_fee proportional : ℕ)
    → (compute_opening_fee size min_fee proportional ≡ none)
      ↔ (u64_mod ≤ size * proportional + 999999)
unfolding compute_opening_fee
compute_opening_fee-eq-none size min_fee proportional = ground arith
