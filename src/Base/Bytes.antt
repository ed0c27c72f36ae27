-- ===== src/Base/Bytes.antt =====
-- `to_be_bytes` of an unsigned number, and the splitting of joined byte strings.
use Prim.Native.Nat.{ℕ, zero, suc, ◌*◌, ◌/◌, ◌%◌, ◌<◌}
use mathlib.Core.Path.{◌≡◌, refl, ap}
use mathlib.Core.List.{List, [], ◌∷◌, ◌++◌}
use native.Mathlib.Omega.{arith}
use lightning_liquidity.Base.Lists.{length, length-append}

-- The lowest `width` bytes, highest first.
unfoldable pub be_bytes : ℕ → ℕ → List ℕ
be_bytes zero n = []
be_bytes (suc width) n = be_bytes width (n / 256) ++ (n % 256) ∷ []

-- 256 ^ width
abbrev pub byte_bound : ℕ → ℕ
byte_bound zero = 1
byte_bound (suc width) = 256 * byte_bound width

pub length-be_bytes : (width n : ℕ) → length (be_bytes width n) ≡ width
unfolding be_bytes
length-be_bytes zero n = refl
length-be_bytes (suc width) n = omega (
  arith,
  length-append (be_bytes width (n / 256)) ((n % 256) ∷ []),
  length-be_bytes width (n / 256),
)

module _ {ℓ} {A : Type ℓ} where
  pub append-injective :
      (xs xs' ys ys' : List A)
      → length xs ≡ length xs'
      → xs ++ ys ≡ xs' ++ ys'
      → (xs ≡ xs') × (ys ≡ ys')
  append-injective [] [] ys ys' l e = (refl, e)
  append-injective [] (x' ∷ xs') ys ys' l e = absurd (omega arith)
  append-injective (x ∷ xs) [] ys ys' l e = absurd (omega arith)
  append-injective (x ∷ xs) (x' ∷ xs') ys ys' l e =
      let rest = append-injective xs xs' ys ys' (omega arith) (cc) in (cc (rest.0), rest.1)

  -- The lengths of the ends decide the split too.
  pub append-injective_end :
      (xs xs' ys ys' : List A)
      → length ys ≡ length ys'
      → xs ++ ys ≡ xs' ++ ys'
      → (xs ≡ xs') × (ys ≡ ys')
  append-injective_end xs xs' ys ys' l e =
      append-injective xs xs' ys ys'
        (omega (arith, ap length e, length-append xs ys, length-append xs' ys')) e

pub be_bytes-injective :
    (width a b : ℕ)
    → a < byte_bound width
    → b < byte_bound width
    → be_bytes width a ≡ be_bytes width b
    → a ≡ b
unfolding be_bytes
be_bytes-injective zero a b h k e = omega arith
be_bytes-injective (suc width) a b h k e =
    omega
      (arith, be_bytes-injective width (a / 256) (b / 256) (omega arith) (omega arith) parts.0, low)
  where
    parts :
        (be_bytes width (a / 256) ≡ be_bytes width (b / 256)) × ((a % 256) ∷ [] ≡ (b % 256) ∷ [])
    parts = append-injective_end _ _ _ _ refl e

    low : a % 256 ≡ b % 256
    low = cc (parts.1)
