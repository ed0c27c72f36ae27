-- ===== src/Lsps2/Split/Bounds.antt =====
-- What the HTLCs of a payment pay when the opening fee is taken out of them.
use lightning_liquidity.Base.{
  ℕ, suc, ◌+◌, ◌-◌, ◌*◌, ◌/◌, ◌≤◌, ◌<◌, ◌≡◌, refl, subst, false, Option, some, List, [], ◌∷◌, ltb,
  length, arith,
}
use lightning_liquidity.Base.Words.{u64_mod}
use lightning_liquidity.Types.{InterceptId}
use lightning_liquidity.Lsps2.PaymentQueue.{InterceptedHtlc}
use lightning_liquidity.Lsps2.PaymentQueue.Contents.{total, sum_msat-exact}
use lightning_liquidity.Lsps2.Split.{round, split_from, calculate_amount_to_forward_per_htlc}
use lightning_liquidity.Lsps2.Split.Rounds.{
  round_inner, round_last, last_remaining, split_from_cons, split_from-nil,
}
use lightning_liquidity.Lsps2.Split.Arithmetic.{share-le-amount, share_step}

abbrev pub forwarded : List (InterceptId × ℕ) → ℕ
forwarded [] = 0
forwarded (f ∷ fs) = f.1 + forwarded fs

abbrev pub last_forwarded : List (InterceptId × ℕ) → ℕ
last_forwarded [] = 0
last_forwarded (f ∷ []) = f.1
last_forwarded (f ∷ g ∷ fs) = last_forwarded (g ∷ fs)

-- One forward for each HTLC, in order, of at most the HTLC's amount.
abbrev pub Within : List InterceptedHtlc → List (InterceptId × ℕ) → Type 0
Within [] [] = Unit
Within (x ∷ xs) (f ∷ fs) =
    (f.0 ≡ x.intercept_id) × (f.1 ≤ x.expected_outbound_amount_msat) × Within xs fs
Within [] (f ∷ fs) = ⊥
Within (x ∷ xs) [] = ⊥

-- The HTLCs are forwarded within their amounts; at most the fee is kept back, less of it by
-- `slack` at most, and exactly the fee if the last HTLC still forwards something.
pub record Splits (xs : List InterceptedHtlc) (fee slack : ℕ) (fs : List (InterceptId × ℕ))
    : Type 0 where
  pub within : Within xs fs
  pub at_most_fee : total xs ≤ forwarded fs + fee
  pub at_least : forwarded fs + fee ≤ total xs + slack
  pub exact : 0 < last_forwarded fs → forwarded fs + fee ≡ total xs

Splits-cons :
    (x y : InterceptedHtlc) (xs : List InterceptedHtlc) (p remaining slack : ℕ)
    (f : InterceptId × ℕ) (fs : List (InterceptId × ℕ))
    → p ≤ x.expected_outbound_amount_msat
    → p ≤ remaining
    → Splits (y ∷ xs) (remaining - p) slack (f ∷ fs)
    → Splits
        (x ∷ y ∷ xs)
        remaining
        slack
        ((x.intercept_id, x.expected_outbound_amount_msat - p) ∷ f ∷ fs)
Splits-cons x y xs p remaining slack f fs h k s = record {
  within = (refl, omega arith, s.within);
  at_most_fee = omega (arith, s.at_most_fee);
  at_least = omega (arith, s.at_least);
  exact = λ pos. omega (arith, s.exact pos);
}

abbrev Result : List InterceptedHtlc → ℕ → ℕ → Option (List (InterceptId × ℕ)) → Type 0
Result xs fee slack r = (fs : List (InterceptId × ℕ)) × (r ≡ some fs) × Splits xs fee slack fs

module _ (last fee t : ℕ) (positive : 0 < t) (fits : t < u64_mod) (covered : fee ≤ t) where
  extend :
      (x y : InterceptedHtlc) (xs : List InterceptedHtlc) (index remaining slack : ℕ) {p : ℕ}
      → round last fee t index remaining x.expected_outbound_amount_msat
        ≡ (remaining - p, x.expected_outbound_amount_msat - p)
      → p ≤ x.expected_outbound_amount_msat
      → p ≤ remaining
      → Result
          (y ∷ xs)
          (remaining - p)
          slack
          (split_from last fee t (index + 1) (remaining - p) (y ∷ xs))
      → Result (x ∷ y ∷ xs) remaining slack (split_from last fee t index remaining (x ∷ y ∷ xs))
  extend x y xs index remaining slack e h k ([], computed, s) = absurd s.within
  extend x y xs index remaining slack {p} e h k (f ∷ fs, computed, s) = (
    (x.intercept_id, x.expected_outbound_amount_msat - p) ∷ f ∷ fs,
    split_from_cons last fee t index remaining x (y ∷ xs) positive e computed,
    Splits-cons x y xs p remaining slack f fs h k s,
  )

  split_from-Splits :
      (xs : List InterceptedHtlc) (x : InterceptedHtlc) (index remaining k : ℕ)
      → index + length xs ≡ last
      → remaining < u64_mod
      → total (x ∷ xs) < u64_mod
      → fee * total (x ∷ xs) ≤ remaining * t
      → remaining * t ≤ fee * total (x ∷ xs) + k * (t - 1)
      → Result (x ∷ xs) remaining (k + length xs) (split_from last fee t index remaining (x ∷ xs))
  split_from-Splits [] x index remaining k at_end r_fits sum_fits low high =
      ((x.intercept_id, x.expected_outbound_amount_msat - remaining) ∷ [], computed, bounds)
    where
      step :
          (fee * x.expected_outbound_amount_msat / t ≤ remaining)
          × (fee * 0 ≤ (remaining - fee * x.expected_outbound_amount_msat / t) * t)
          × ((remaining - fee * x.expected_outbound_amount_msat / t) * t
              ≤ fee * 0 + (k + 1) * (t - 1))
      step = share_step fee x.expected_outbound_amount_msat 0 t remaining k positive low high

      computed :
          split_from last fee t index remaining (x ∷ [])
          ≡ some ((x.intercept_id, x.expected_outbound_amount_msat - remaining) ∷ [])
      computed =
          split_from_cons last fee t index remaining x [] positive
            (subst
              (λ (i : ℕ). round last fee t i remaining x.expected_outbound_amount_msat ≡ (
                remaining - fee * x.expected_outbound_amount_msat / t,
                x.expected_outbound_amount_msat - remaining,
              ))
              (omega arith)
              (round_last last fee t remaining x.expected_outbound_amount_msat positive fits covered
                (omega arith) r_fits step.0))
            (split_from-nil last fee t (index + 1)
              (remaining - fee * x.expected_outbound_amount_msat / t))

      bounds :
          Splits
            (x ∷ [])
            remaining
            (k + 0)
            ((x.intercept_id, x.expected_outbound_amount_msat - remaining) ∷ [])
      bounds = record {
        within = (refl, omega arith, tt);
        at_most_fee = omega arith;
        at_least = omega (
          arith,
          last_remaining fee t remaining x.expected_outbound_amount_msat k positive covered high,
        );
        exact = λ pos. omega arith;
      }
  split_from-Splits (y ∷ xs) x index remaining k at_end r_fits sum_fits low high =
      extend x y xs index remaining (k + suc (length xs))
        (round_inner last fee t index remaining x.expected_outbound_amount_msat positive fits
          covered (omega arith) r_fits step.0 (omega arith))
        (share-le-amount fee x.expected_outbound_amount_msat t positive covered) step.0
        (rw slack at (
          split_from-Splits xs y (index + 1) (remaining - fee * x.expected_outbound_amount_msat / t)
            (k + 1) (omega arith) (omega arith) (omega arith) step.1 step.2))
    where
      step :
          (fee * x.expected_outbound_amount_msat / t ≤ remaining)
          × (fee * total (y ∷ xs) ≤ (remaining - fee * x.expected_outbound_amount_msat / t) * t)
          × ((remaining - fee * x.expected_outbound_amount_msat / t) * t
              ≤ fee * total (y ∷ xs) + (k + 1) * (t - 1))
      step =
          share_step fee x.expected_outbound_amount_msat (total (y ∷ xs)) t remaining k positive low
            high

      slack : k + 1 + length xs ≡ k + suc (length xs)
      slack = omega arith

-- For a payment whose total is positive, fits a `u64` and covers the fee, the code does not panic
-- and gives one forward for each HTLC, in order and within its amount. Together they keep back at
-- most the fee; fewer millisatoshi than there are HTLCs are missing from it, and none if the last
-- HTLC still forwards something.
pub calculate_amount_to_forward_per_htlc-Splits :
    (htlcs : List InterceptedHtlc) (fee : ℕ)
    → 0 < total htlcs
    → total htlcs < u64_mod
    → fee ≤ total htlcs
    → (fs : List (InterceptId × ℕ)) × (calculate_amount_to_forward_per_htlc htlcs fee ≡ some fs)
      × Splits htlcs fee (length htlcs - 1) fs
unfolding calculate_amount_to_forward_per_htlc
calculate_amount_to_forward_per_htlc-Splits [] fee h k l = absurd (omega arith)
calculate_amount_to_forward_per_htlc-Splits (x ∷ xs) fee h k l =
    rw (sum_msat-exact (x ∷ xs) k, leb_false)
      (rw one_less (
        rw zero_slack at (
          split_from-Splits (length xs) fee (total (x ∷ xs)) h k l xs x 0 fee 0 (omega arith)
            (omega arith) k (grind arith) (omega arith))))
  where
    leb_false : ltb (total (x ∷ xs)) fee ≡ false
    leb_false = ground arith

    zero_slack : 0 + length xs ≡ length xs
    zero_slack = omega arith

    one_less : suc (length xs) - 1 ≡ length xs
    one_less = omega arith
