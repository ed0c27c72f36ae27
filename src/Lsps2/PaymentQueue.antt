-- ===== src/Lsps2/PaymentQueue.antt =====
-- src/lsps2/payment_queue.rs: the HTLCs that are held back, by payment.
pub mod Contents
pub mod Invariant
use lightning_liquidity.Base.{
  ℕ, Option, none, some, List, [], ◌∷◌, ◌++◌, ◌==◌, leb, if◌then◌else◌, length,
}
use lightning_liquidity.Base.Words.{wrapping_add}
use lightning_liquidity.Types.{InterceptId, PaymentHash}

pub record InterceptedHtlc : Type 0 where
  pub intercept_id : InterceptId
  pub expected_outbound_amount_msat : ℕ
  pub payment_hash : PaymentHash

abbrev pub Payment : Type 0
Payment = PaymentHash × List InterceptedHtlc

pub record PaymentQueue : Type 0 where
  pub payments : List Payment

unfoldable pub new : PaymentQueue
new = record { payments = [] }

-- `.iter().map(|htlc| htlc.expected_outbound_amount_msat).sum::<u64>()`, from an initial value.
unfoldable pub sum_from : ℕ → List InterceptedHtlc → ℕ
sum_from acc [] = acc
sum_from acc (htlc ∷ htlcs) = sum_from (wrapping_add acc htlc.expected_outbound_amount_msat) htlcs

unfoldable pub sum_msat : List InterceptedHtlc → ℕ
unfolding sum_from
sum_msat htlcs = sum_from 0 htlcs

-- The first payment of the hash takes the HTLC; with none, a new payment is pushed.
unfoldable pub add_to : InterceptedHtlc → List Payment → List Payment × (ℕ × ℕ)
add_to htlc [] = ((htlc.payment_hash, htlc ∷ []) ∷ [], (htlc.expected_outbound_amount_msat, 1))
add_to htlc ((hash, htlcs) ∷ rest) =
    let later = add_to htlc rest in
    let htlcs' = htlcs ++ htlc ∷ [] in
    if hash == htlc.payment_hash
    then ((hash, htlcs') ∷ rest, (sum_msat htlcs', length htlcs'))
    else ((hash, htlcs) ∷ later.0, later.1)

-- The new queue, with the payment's total amount and its number of HTLCs.
unfoldable pub add_htlc : PaymentQueue → InterceptedHtlc → PaymentQueue × (ℕ × ℕ)
unfolding add_to
add_htlc q htlc =
    let (payments, result) = add_to htlc q.payments in (record { payments = payments }, result)

unfoldable pub pop_from : ℕ → List Payment → List Payment × Option Payment
pop_from amount [] = ([], none)
pop_from amount ((hash, htlcs) ∷ rest) =
    let later = pop_from amount rest in
    if leb amount (sum_msat htlcs)
    then (rest, some (hash, htlcs))
    else ((hash, htlcs) ∷ later.0, later.1)

-- Takes out the first payment whose total is at least the amount.
unfoldable pub pop_greater_than_msat : PaymentQueue → ℕ → PaymentQueue × Option Payment
unfolding pop_from
pop_greater_than_msat q amount =
    let (payments, result) = pop_from amount q.payments in (record { payments = payments }, result)

unfoldable pub all_htlcs : List Payment → List InterceptedHtlc
all_htlcs [] = []
all_htlcs ((hash, htlcs) ∷ rest) = htlcs ++ all_htlcs rest

-- Empties the queue.
unfoldable pub clear : PaymentQueue → PaymentQueue × List InterceptedHtlc
unfolding all_htlcs
clear q = (record { payments = [] }, all_htlcs q.payments)
