-- ===== src/Lsps2/Split/Arithmetic.antt =====
-- The arithmetic of one proportional share: `p = fee * a / total`.
use native.Mathlib.Nat.{mod-eq_of_lt}
use lightning_liquidity.Base.{ℕ, ◌+◌, ◌-◌, ◌*◌, ◌/◌, ◌^◌, ◌≤◌, ◌<◌, ◌≡◌, arith}
use lightning_liquidity.Base.Words.{u64_mod}
use lightning_liquidity.Lsps2.Split.{proportional_fee}

pub le_of_mul_le : (a b t : ℕ) → 0 < t → a * t ≤ b * t → a ≤ b
le_of_mul_le a b t h k = grind arith

pub div_mul_bounds : (x t : ℕ) → 0 < t → ((x / t) * t ≤ x) × (x < (x / t) * t + t)
div_mul_bounds x t h = (grind arith, grind arith)

pub mul_lt_u128 : (a b : ℕ) → a < u64_mod → b < u64_mod → a * b < 2 ^ 128
mul_lt_u128 a b h k = grind arith

pub share-le-amount :
    (fee amount total : ℕ) → 0 < total → fee ≤ total → fee * amount / total ≤ amount
share-le-amount fee amount total h k =
    le_of_mul_le (fee * amount / total) amount total h
      (grind (arith, div_mul_bounds (fee * amount) total h))

-- No cast loses anything on amounts that fit: the share is the quotient.
pub proportional_fee-exact :
    (fee amount total : ℕ)
    → 0 < total
    → total < u64_mod
    → fee ≤ total
    → amount < u64_mod
    → proportional_fee fee amount total ≡ fee * amount / total
unfolding proportional_fee
proportional_fee-exact fee amount total h k l m =
    rw (mod-eq_of_lt (mul_lt_u128 fee amount (omega arith) m))
      (mod-eq_of_lt (omega (arith, share-le-amount fee amount total h l)))

after_share :
    (fee a s t p r k : ℕ)
    → p * t ≤ fee * a
    → fee * a < p * t + t
    → fee * (a + s) ≤ (p + r) * t
    → (p + r) * t ≤ fee * (a + s) + k * (t - 1)
    → (fee * s ≤ r * t) × (r * t ≤ fee * s + (k + 1) * (t - 1))
after_share fee a s t p r k low up enough most = omega arith

-- The share of the first HTLC leaves enough of the fee for the shares of the others (`s` is their
-- sum), and at most `total - 1` parts more than before are lost to rounding.
pub share_step :
    (fee a s total remaining k : ℕ)
    → 0 < total
    → fee * (a + s) ≤ remaining * total
    → remaining * total ≤ fee * (a + s) + k * (total - 1)
    → let p = fee * a / total in
      (p ≤ remaining)
      × (fee * s ≤ (remaining - p) * total)
      × ((remaining - p) * total ≤ fee * s + (k + 1) * (total - 1))
share_step fee a s total remaining k h low high = (enough, rest.0, rest.1)
  where
    p : ℕ
    p = fee * a / total

    bounds : (p * total ≤ fee * a) × (fee * a < p * total + total)
    bounds = div_mul_bounds (fee * a) total h

    enough : p ≤ remaining
    enough = le_of_mul_le p remaining total h (omega (arith, bounds))

    restored : p + (remaining - p) ≡ remaining
    restored = omega (arith, enough)

    rest :
        (fee * s ≤ (remaining - p) * total)
        × ((remaining - p) * total ≤ fee * s + (k + 1) * (total - 1))
    rest =
        after_share fee a s total p (remaining - p) k bounds.0 bounds.1 (rw restored low)
          (rw restored high)
