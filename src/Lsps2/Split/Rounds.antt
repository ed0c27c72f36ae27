-- ===== src/Lsps2/Split/Rounds.antt =====
-- One round of the split of the fee of src/lsps2/service.rs, without wrap-around.
use lightning_liquidity.Base.{
  ℕ, ◌+◌, ◌-◌, ◌*◌, ◌/◌, ◌≤◌, ◌<◌, ◌≡◌, ◌≢◌, refl, some, List, [], ◌∷◌, arith, ==_iff,
}
use lightning_liquidity.Base.Words.{u64_mod, wrapping_add, wrapping_sub, saturating_sub}
use lightning_liquidity.Types.{InterceptId}
use lightning_liquidity.Lsps2.PaymentQueue.{InterceptedHtlc}
use lightning_liquidity.Lsps2.Split.{round, split_from}
use lightning_liquidity.Lsps2.Split.Arithmetic.{
  le_of_mul_le, proportional_fee-exact, share-le-amount,
}

pub round_inner :
    (last fee t index remaining amount : ℕ)
    → 0 < t
    → t < u64_mod
    → fee ≤ t
    → amount < u64_mod
    → remaining < u64_mod
    → fee * amount / t ≤ remaining
    → index ≢ last
    → round last fee t index remaining amount
      ≡ (remaining - fee * amount / t, amount - fee * amount / t)
unfolding round saturating_sub wrapping_sub
round_inner last fee t index remaining amount h k l m n p q =
    rw (proportional_fee-exact fee amount t h k l m)
      (ground (arith, share-le-amount fee amount t h l, ==_iff index last))

pub round_last :
    (last fee t remaining amount : ℕ)
    → 0 < t
    → t < u64_mod
    → fee ≤ t
    → amount < u64_mod
    → remaining < u64_mod
    → fee * amount / t ≤ remaining
    → round last fee t last remaining amount ≡ (remaining - fee * amount / t, amount - remaining)
unfolding round saturating_sub wrapping_sub wrapping_add
round_last last fee t remaining amount h k l m n p =
    rw (proportional_fee-exact fee amount t h k l m)
      (ground (arith, share-le-amount fee amount t h l, ==_iff last last))

pub last_remaining :
    (fee t remaining amount k : ℕ)
    → 0 < t
    → fee ≤ t
    → remaining * t ≤ fee * (amount + 0) + k * (t - 1)
    → remaining ≤ amount + k
last_remaining fee t remaining amount k h l most =
    le_of_mul_le remaining (amount + k) t h (grind arith)

-- One round of the loop, with the division by zero excluded.
pub split_from_cons :
    (last fee t index remaining : ℕ) (x : InterceptedHtlc) (xs : List InterceptedHtlc) {r a : ℕ}
    {fs : List (InterceptId × ℕ)}
    → 0 < t
    → round last fee t index remaining x.expected_outbound_amount_msat ≡ (r, a)
    → split_from last fee t (index + 1) r xs ≡ some fs
    → split_from last fee t index remaining (x ∷ xs) ≡ some ((x.intercept_id, a) ∷ fs)
unfolding split_from
split_from_cons last fee t index remaining x xs h e rest = rw (e, rest) (ground arith)

pub split_from-nil :
    (last fee t index remaining : ℕ) → split_from last fee t index remaining [] ≡ some []
unfolding split_from
split_from-nil last fee t index remaining = refl
