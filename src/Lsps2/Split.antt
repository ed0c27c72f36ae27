-- ===== src/Lsps2/Split.antt =====
-- `calculate_amount_to_forward_per_htlc` of src/lsps2/service.rs: how the opening fee is taken out
-- of the HTLCs of one payment.
pub mod Arithmetic
pub mod Rounds
pub mod Bounds
pub mod Cases
use mathlib.Core.Option
use lightning_liquidity.Base.{
  ℕ, ◌+◌, ◌-◌, ◌*◌, ◌/◌, ◌%◌, ◌^◌, min, Option, none, some, List, [], ◌∷◌, ◌==◌, ltb, if◌then◌else◌,
  length,
}
use lightning_liquidity.Base.Words.{u64_mod, wrapping_add, wrapping_sub, saturating_sub}
use lightning_liquidity.Types.{InterceptId}
use lightning_liquidity.Lsps2.PaymentQueue.{InterceptedHtlc, sum_msat}

-- The product is taken in `u128`, and the quotient is cast back to `u64`.
unfoldable pub proportional_fee : ℕ → ℕ → ℕ → ℕ
proportional_fee fee amount total = (fee * amount % 2 ^ 128) / total % u64_mod

-- One round: the fee that remains after it and the amount to forward. The last HTLC, at `last`,
-- takes what remains of the fee.
unfoldable pub round : ℕ → ℕ → ℕ → ℕ → ℕ → ℕ → ℕ × ℕ
unfolding proportional_fee
round last fee total index remaining amount =
    let actual = min (min remaining (proportional_fee fee amount total)) amount in
    let remaining' = wrapping_sub remaining actual in
    let actual' = if index == last then wrapping_add actual remaining' else actual in
    (remaining', saturating_sub amount actual')

-- The loop over the HTLCs. `none` is the panic of a division by zero.
unfoldable pub split_from :
    ℕ → ℕ → ℕ → ℕ → ℕ → List InterceptedHtlc → Option (List (InterceptId × ℕ))
split_from last fee total index remaining [] = some []
split_from last fee total index remaining (htlc ∷ htlcs) =
    let r = round last fee total index remaining htlc.expected_outbound_amount_msat in
    let rest = split_from last fee total (index + 1) r.0 htlcs in
    if total == 0 then none else Option.map (◌∷◌ (htlc.intercept_id, r.1)) rest

unfoldable pub calculate_amount_to_forward_per_htlc :
    List InterceptedHtlc → ℕ → Option (List (InterceptId × ℕ))
calculate_amount_to_forward_per_htlc htlcs fee =
    let total = sum_msat htlcs in
    if ltb total fee then some [] else split_from (length htlcs - 1) fee total 0 fee htlcs
