-- ===== src/Base/Bits.antt =====
-- Bit masks and the joining of bit fields, for every width: what `&` with a mask of ones and `|` of
-- disjoint fields are in arithmetic.
use Prim.Native.Nat.{
  ℕ, zero, suc, ◌+◌, ◌*◌, ◌/◌, ◌%◌, ◌≤◌, ◌<◌, min, max, bit_and, bit_or, digits, bit_and-bitwise,
  bit_or-bitwise,
}
use native.Mathlib.Nat.{div-add-mod', mod-lt}
use mathlib.Core.Path.{◌≡◌, refl, ◌∙◌}
use native.Mathlib.Omega.{arith}

-- 2 ^ k, and the mask of k ones.
abbrev pub weight : ℕ → ℕ
weight zero = 1
weight (suc k) = 2 * weight k

abbrev pub ones : ℕ → ℕ
ones zero = 0
ones (suc k) = 2 * ones k + 1

pub weight-pos : (k : ℕ) → 0 < weight k
weight-pos zero = omega arith
weight-pos (suc k) = omega (arith, weight-pos k)

mod_of_parts : (a n d r : ℕ) → a ≡ d * n + r → r < n → r ≡ a % n
mod_of_parts a n d r e h = grind arith

mod_double : (a m : ℕ) → 0 < m → (a / 2 % m) * 2 + a % 2 ≡ a % (2 * m)
mod_double a m h =
    mod_of_parts a (2 * m) (a / 2 / m) (a / 2 % m * 2 + a % 2)
      (omega (arith, div-add-mod' (a / 2) m)) (omega (arith, mod-lt (a / 2) h))

zero_mod : (k : ℕ) → 0 ≡ 0 % weight k
zero_mod k = grind (arith, weight-pos k)

abbrev and_with : ℕ → ℕ → ℕ → ℕ
and_with = digits (λ b. 0) min

abbrev or_with : ℕ → ℕ → ℕ → ℕ
or_with = digits (λ b. b) max

and_with-zero : (n a : ℕ) → and_with n a 0 ≡ 0
and_with-zero zero a = refl
and_with-zero (suc n) zero = refl
and_with-zero (suc n) (suc a) = omega (arith, and_with-zero n (suc a / 2))

and_with-ones : (k n a : ℕ) → a ≤ n → and_with n a (ones k) ≡ a % weight k
and_with-ones zero n a h = omega (arith, and_with-zero n a)
and_with-ones (suc k) zero zero h = zero_mod (suc k)
and_with-ones (suc k) zero (suc a) h = absurd (omega arith)
and_with-ones (suc k) (suc n) zero h = zero_mod (suc k)
and_with-ones (suc k) (suc n) (suc a) h = rw half (
    omega (
      arith,
      and_with-ones k n (suc a / 2) (omega arith),
      mod_double (suc a) (weight k) (weight-pos k),
    ))
  where
    half : (2 * ones k + 1) / 2 ≡ ones k
    half = omega arith

-- `a & mask` keeps the low k bits.
pub bit_and-ones : (k a : ℕ) → bit_and a (ones k) ≡ a % weight k
bit_and-ones k a = bit_and-bitwise a (ones k) ∙ and_with-ones k a a (omega arith)

or_with-zero : (n a : ℕ) → a ≤ n → or_with n a 0 ≡ a
or_with-zero zero zero h = refl
or_with-zero zero (suc a) h = absurd (omega arith)
or_with-zero (suc n) zero h = refl
or_with-zero (suc n) (suc a) h = omega (arith, or_with-zero n (suc a / 2) (omega arith))

or_with-fields :
    (k n a high low : ℕ) → a ≡ high * weight k → a ≤ n → low < weight k → or_with n a low ≡ a + low
or_with-fields zero n a high zero e h l = omega (arith, or_with-zero n a h)
or_with-fields zero n a high (suc low) e h l = absurd (omega arith)
or_with-fields (suc k) zero zero high low e h l = omega arith
or_with-fields (suc k) zero (suc a) high low e h l = absurd (omega arith)
or_with-fields (suc k) (suc n) zero high low e h l = omega arith
or_with-fields (suc k) (suc n) (suc a) high low e h l =
    omega (
      arith,
      or_with-fields k n (suc a / 2) high (low / 2) (omega arith) (omega arith) (omega arith),
    )

-- `|` of a field and of lower bits is their sum.
pub bit_or-fields :
    (k high low : ℕ) → low < weight k → bit_or (high * weight k) low ≡ high * weight k + low
bit_or-fields k high low h =
    bit_or-bitwise (high * weight k) low
    ∙ or_with-fields k (high * weight k) (high * weight k) high low refl (omega arith) h
