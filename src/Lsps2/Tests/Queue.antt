-- ===== src/Lsps2/Tests/Queue.antt =====
-- The theorems on src/lsps2/payment_queue.rs and on the split of the fee at concrete inputs.
use lightning_liquidity.Base.{
  ℕ, ◌*◌, ◌<◌, ◌≤◌, ◌≡◌, ◌↔◌, map, refl, none, some, List, [], ◌∷◌, ◌++◌, ◌==◌, if◌then◌else◌,
  length, arith,
}
use lightning_liquidity.Base.Words.{wrapping_add, wrapping_sub, saturating_sub}
use lightning_liquidity.Types.{InterceptId}
use lightning_liquidity.Lsps2.PaymentQueue.{
  InterceptedHtlc, add_htlc, pop_greater_than_msat, sum_msat,
}
use lightning_liquidity.Lsps2.PaymentQueue.Contents.{
  held, held-add_htlc, popping, Popped, pop_greater_than_msat-Popped,
}
use lightning_liquidity.Lsps2.PaymentQueue.Invariant.{IsValid}
use lightning_liquidity.Lsps2.Split.{split_from, round, calculate_amount_to_forward_per_htlc}
use lightning_liquidity.Lsps2.Split.Bounds.{Splits, calculate_amount_to_forward_per_htlc-Splits}
use lightning_liquidity.Lsps2.Split.Cases.{calculate_amount_to_forward_per_htlc_cases}
use lightning_liquidity.Lsps2.Fee.{compute_opening_fee, compute_opening_fee-least}
use lightning_liquidity.Lsps2.Tests.Data.{htlc, one_payment, two_payments}

one_payment-IsValid : IsValid one_payment
one_payment-IsValid = record {
  distinct = (tt, tt);
  payments = (record { some_htlc = omega arith; same_hash = (refl, (refl, tt)) }, tt);
}

-- Three HTLCs of 3, 3 and 1 cannot pay a fee of 6 in full: 3 * 6 / 7 is 2, and the last is too
-- small for the 2 that remain.
split_short :
    calculate_amount_to_forward_per_htlc (htlc 1 3 7 ∷ htlc 2 3 7 ∷ htlc 3 1 7 ∷ []) 6
    ≡ some ((1, 1) ∷ (2, 1) ∷ (3, 0) ∷ [])
unfolding calculate_amount_to_forward_per_htlc split_from round sum_msat wrapping_add wrapping_sub
    saturating_sub
split_short = refl

split_two :
    calculate_amount_to_forward_per_htlc (htlc 1 6000 7 ∷ htlc 2 3000 7 ∷ []) 100
    ≡ some ((1, 5934) ∷ (2, 2966) ∷ [])
unfolding calculate_amount_to_forward_per_htlc split_from round sum_msat wrapping_add wrapping_sub
    saturating_sub
split_two = refl

add_second : add_htlc one_payment (htlc 3 50 8) ≡ (
  record { payments = (7, htlc 1 6000 7 ∷ htlc 2 3000 7 ∷ []) ∷ (8, htlc 3 50 8 ∷ []) ∷ [] },
  (50, 1),
)
unfolding add_htlc
add_second = refl

pop_second : pop_greater_than_msat two_payments 100 ≡ (
  record { payments = (8, htlc 3 50 8 ∷ []) ∷ [] },
  some (7, htlc 1 6000 7 ∷ htlc 2 3000 7 ∷ []),
)
unfolding pop_greater_than_msat sum_msat wrapping_add
pop_second = refl

fee_is_minimum : compute_opening_fee 9000 100 10000 ≡ some 100
unfolding compute_opening_fee
fee_is_minimum = refl

held-add_htlc_example :
    held 7 (add_htlc one_payment (htlc 3 50 7)).0
    ≡ (if 7 == 7 then held 7 one_payment ++ htlc 3 50 7 ∷ [] else held 7 one_payment)
held-add_htlc_example = held-add_htlc 7 (htlc 3 50 7) one_payment

pop_greater_than_msat-Popped_example : Popped 100 two_payments.payments (popping two_payments 100)
pop_greater_than_msat-Popped_example = pop_greater_than_msat-Popped two_payments 100

calculate_amount_to_forward_per_htlc-Splits_example :
    (fs : List (InterceptId × ℕ)) × (calculate_amount_to_forward_per_htlc
        (htlc 1 6000 7 ∷ htlc 2 3000 7 ∷ [])
        100
      ≡ some fs)
    × Splits (htlc 1 6000 7 ∷ htlc 2 3000 7 ∷ []) 100 1 fs
calculate_amount_to_forward_per_htlc-Splits_example =
    calculate_amount_to_forward_per_htlc-Splits (htlc 1 6000 7 ∷ htlc 2 3000 7 ∷ []) 100
      (omega arith) (omega arith) (omega arith)

calculate_amount_to_forward_per_htlc_cases_example :
    ((calculate_amount_to_forward_per_htlc (htlc 1 0 7 ∷ []) 5 ≡ none)
      ↔ ((0 < length (htlc 1 0 7 ∷ [])) × (sum_msat (htlc 1 0 7 ∷ []) ≡ 0) × (◌≡◌ {A = ℕ} 5 0)))
    × (sum_msat (htlc 1 0 7 ∷ []) < 5
        → calculate_amount_to_forward_per_htlc (htlc 1 0 7 ∷ []) 5 ≡ some [])
    × ((fs : List (InterceptId × ℕ))
        → 5 ≤ sum_msat (htlc 1 0 7 ∷ [])
        → calculate_amount_to_forward_per_htlc (htlc 1 0 7 ∷ []) 5 ≡ some fs
        → map (λ (f : InterceptId × ℕ). f.0) fs
          ≡ map (λ (x : InterceptedHtlc). x.intercept_id) (htlc 1 0 7 ∷ []))
calculate_amount_to_forward_per_htlc_cases_example =
    calculate_amount_to_forward_per_htlc_cases (htlc 1 0 7 ∷ []) 5

compute_opening_fee-least_example :
    (100 ≤ 100)
    × (9000 * 10000 ≤ 100 * 1000000)
    × ((g : ℕ) → 100 ≤ g → 9000 * 10000 ≤ g * 1000000 → 100 ≤ g)
unfolding compute_opening_fee
compute_opening_fee-least_example = compute_opening_fee-least 9000 100 10000 100 refl
