-- ===== src/Lsps2/Split/Cases.antt =====
-- When the split of the opening fee of src/lsps2/service.rs panics, and which HTLCs it forwards.
use lightning_liquidity.Base.{
  ℕ, ◌+◌, ◌-◌, ◌≤◌, ◌<◌, ◌≡◌, ◌↔◌, inl, inr, ap, refl, sym, none, some, List, [], ◌∷◌, map, length,
  arith, ltb, Bool-cases,
}
use lightning_liquidity.Types.{InterceptId}
use lightning_liquidity.Lsps2.PaymentQueue.{InterceptedHtlc, sum_msat}
use lightning_liquidity.Lsps2.Split.{round, split_from, calculate_amount_to_forward_per_htlc}
use lightning_liquidity.Lsps2.Split.Rounds.{split_from_cons, split_from-nil}

abbrev ids : List InterceptedHtlc → List InterceptId
ids = map λ x. x.intercept_id

-- The loop gives each HTLC a forward unless it divides by zero.
split_from-ids :
    (last fee t index remaining : ℕ) (xs : List InterceptedHtlc)
    → 0 < t
    → (fs : List (InterceptId × ℕ)) × (split_from last fee t index remaining xs ≡ some fs)
      × (map (λ (f : InterceptId × ℕ). f.0) fs ≡ ids xs)
split_from-ids last fee t index remaining [] h =
    ([], split_from-nil last fee t index remaining, refl)
split_from-ids last fee t index remaining (x ∷ xs) h =
    let r = round last fee t index remaining x.expected_outbound_amount_msat in
    let (fs, computed, same) = split_from-ids last fee t (index + 1) r.0 xs h in
    (
      (x.intercept_id, r.1) ∷ fs,
      split_from_cons last fee t index remaining x xs h refl computed,
      ap (◌∷◌ x.intercept_id) same,
    )

forwards_none :
    (htlcs : List InterceptedHtlc) (fee : ℕ)
    → sum_msat htlcs < fee
    → calculate_amount_to_forward_per_htlc htlcs fee ≡ some []
unfolding calculate_amount_to_forward_per_htlc
forwards_none htlcs fee h = ground arith

forwards_each :
    (htlcs : List InterceptedHtlc) (fee : ℕ)
    → fee ≤ sum_msat htlcs
    → 0 < sum_msat htlcs
    → (fs : List (InterceptId × ℕ)) × (calculate_amount_to_forward_per_htlc htlcs fee ≡ some fs)
      × (map (λ (f : InterceptId × ℕ). f.0) fs ≡ ids htlcs)
unfolding calculate_amount_to_forward_per_htlc
forwards_each htlcs fee h k =
    let (fs, computed, same) =
      split_from-ids (length htlcs - 1) fee (sum_msat htlcs) 0 fee htlcs k in
    (fs, ground (arith, computed), same)

forwards_nil : (fee : ℕ) → calculate_amount_to_forward_per_htlc [] fee ≡ some []
unfolding calculate_amount_to_forward_per_htlc split_from
forwards_nil fee = ground arith

panics :
    (htlcs : List InterceptedHtlc) (fee : ℕ)
    → (0 < length htlcs) × (sum_msat htlcs ≡ 0) × (fee ≡ 0)
    → calculate_amount_to_forward_per_htlc htlcs fee ≡ none
unfolding calculate_amount_to_forward_per_htlc split_from
panics [] fee (h, e, f) = absurd (omega (arith, h))
panics (x ∷ xs) fee (h, e, f) = rw (f, e) refl

panic_only :
    (htlcs : List InterceptedHtlc) (fee : ℕ)
    → calculate_amount_to_forward_per_htlc htlcs fee ≡ none
    → (0 < length htlcs) × (sum_msat htlcs ≡ 0) × (fee ≡ 0)
panic_only [] fee h = absurd (cc (forwards_nil fee))
panic_only (x ∷ xs) fee h = elim (Bool-cases (ltb (sum_msat (x ∷ xs)) fee)) [
  | inl low ↦ absurd (cc (forwards_none (x ∷ xs) fee (ground (arith, low))))
  | inr high ↦ elim (Bool-cases (ltb 0 (sum_msat (x ∷ xs)))) [
    | inl positive ↦
        let f = forwards_each (x ∷ xs) fee (ground (arith, high)) (ground (arith, positive)) in
        absurd (cc f.1)
    | inr zero ↦ (omega arith, ground (arith, zero), ground (arith, high, zero))
  ]
]

each_forwarded :
    (htlcs : List InterceptedHtlc) (fee : ℕ) (fs : List (InterceptId × ℕ))
    → fee ≤ sum_msat htlcs
    → calculate_amount_to_forward_per_htlc htlcs fee ≡ some fs
    → map (λ (f : InterceptId × ℕ). f.0) fs ≡ ids htlcs
each_forwarded [] fee fs h e = let nil : fs ≡ [] = cc (forwards_nil fee) in rw nil refl
each_forwarded (x ∷ xs) fee fs h e = elim (Bool-cases (ltb 0 (sum_msat (x ∷ xs)))) [
  | inl positive ↦
      let f = forwards_each (x ∷ xs) fee h (ground (arith, positive)) in
      let same : f.0 ≡ fs = cc f.1 in rw (sym same) f.2
  | inr zero ↦
      absurd (cc (panics (x ∷ xs) fee (omega arith, ground (arith, zero), ground (arith, zero, h))))
]

-- The code panics exactly if there are HTLCs, their total, as it wraps around in a `u64`, is zero
-- and there is no fee to take. It forwards nothing if the total is below the fee; if it does not
-- panic and the total is not below the fee, there is one forward for each HTLC, in order.
pub calculate_amount_to_forward_per_htlc_cases :
    (htlcs : List InterceptedHtlc) (fee : ℕ)
    → ((calculate_amount_to_forward_per_htlc htlcs fee ≡ none)
        ↔ ((0 < length htlcs) × (sum_msat htlcs ≡ 0) × (fee ≡ 0)))
      × (sum_msat htlcs < fee → calculate_amount_to_forward_per_htlc htlcs fee ≡ some [])
      × ((fs : List (InterceptId × ℕ))
          → fee ≤ sum_msat htlcs
          → calculate_amount_to_forward_per_htlc htlcs fee ≡ some fs
          → map (λ (f : InterceptId × ℕ). f.0) fs ≡ map (λ x. x.intercept_id) htlcs)
calculate_amount_to_forward_per_htlc_cases htlcs fee = (
  (panic_only htlcs fee, λ h. panics htlcs fee h),
  forwards_none htlcs fee,
  each_forwarded htlcs fee,
)
