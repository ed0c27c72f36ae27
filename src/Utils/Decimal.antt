-- ===== src/Utils/Decimal.antt =====
-- Rust's `format!("{}", n)` and `str::parse::<u64>`, which src/utils.rs and src/lsps2/msgs.rs use:
-- decimal text of an unsigned number, and its reading back.
use lightning_liquidity.Base.{
  ℕ, zero, suc, ◌+◌, ◌-◌, ◌*◌, ◌/◌, ◌%◌, ◌≤◌, ◌<◌, ◌≡◌, ◌≢◌, refl, ap, ◌∙◌, Bool, false, ◌&&◌,
  Option, none, some, [], ◌∷◌, ◌++◌, ltb, leb, ◌==◌, if◌then◌else◌, All, length, length-append,
  All-append, arith, inl, inr, Bool-cases, Option-cases,
}
use lightning_liquidity.Base.Options.{◌>>=◌}
use lightning_liquidity.Base.Words.{checked_add, checked_mul, u64_mod}
use lightning_liquidity.Types.{Text}

-- The digits of `n`, highest first, as many as there are at most.
unfoldable pub print_digits : ℕ → ℕ → Text
print_digits zero n = []
print_digits (suc most) n =
    let rest = print_digits most (n / 10) in
    if ltb n 10 then (b'0' + n) ∷ [] else rest ++ (b'0' + n % 10) ∷ []

-- A `u64` has 20 digits at most.
unfoldable pub print_u64 : ℕ → Text
unfolding print_digits
print_u64 n = print_digits 20 n

unfoldable pub is_digit : ℕ → Bool
is_digit c = leb b'0' c && leb c b'9'

-- `none` on any other character and on overflow.
unfoldable pub push_digit : ℕ → ℕ → Option ℕ
unfolding is_digit checked_mul checked_add
push_digit acc c =
    if is_digit c then (do tens ← checked_mul acc 10; checked_add tens (c - b'0')) else none

unfoldable pub parse_digits : ℕ → Text → Option ℕ
parse_digits acc [] = some acc
parse_digits acc (c ∷ cs) = elim (push_digit acc c) [
  | none ↦ none
  | some acc' ↦ parse_digits acc' cs
]

-- After a plus sign there must be digits.
unfoldable pub parse_after_sign : Text → Option ℕ
unfolding parse_digits
parse_after_sign [] = none
parse_after_sign (c ∷ cs) = parse_digits 0 (c ∷ cs)

unfoldable pub parse_u64 : Text → Option ℕ
unfolding parse_after_sign parse_digits
parse_u64 [] = none
parse_u64 (c ∷ cs) = if c == b'+' then parse_after_sign cs else parse_digits 0 (c ∷ cs)

parse_digits-append :
    (acc mid : ℕ) (xs ys : Text)
    → parse_digits acc xs ≡ some mid
    → parse_digits acc (xs ++ ys) ≡ parse_digits mid ys
unfolding parse_digits
parse_digits-append acc mid [] ys h = cc
parse_digits-append acc mid (c ∷ cs) ys h = elim (Option-cases (push_digit acc c)) [
  | inl e ↦ absurd (cc (rw (e, parse_digits) at h))
  | inr (a, e) ↦ rw (e, parse_digits) (parse_digits-append a mid cs ys (rw (e, parse_digits) at h))
]

push_digit-digit :
    (acc d : ℕ) → d < 10 → acc * 10 + d < u64_mod → push_digit acc (b'0' + d) ≡ some (acc * 10 + d)
unfolding push_digit
push_digit-digit acc d h k = ground arith

parse_last :
    (acc d : ℕ)
    → d < 10
    → acc * 10 + d < u64_mod
    → parse_digits acc ((b'0' + d) ∷ []) ≡ some (acc * 10 + d)
unfolding parse_digits
parse_last acc d h k = rw (push_digit-digit acc d h k, parse_digits)

-- ten to the number of digits
abbrev pub powers : ℕ → ℕ
powers zero = 1
powers (suc k) = 10 * powers k

more_digits : (most n : ℕ) → n < powers (suc most) → ltb n 10 ≡ false → 0 < most
more_digits zero n h e = ground arith
more_digits (suc most) n h e = omega arith

parse-print_digits :
    (most n : ℕ)
    → n < powers most
    → n < u64_mod
    → 0 < most
    → parse_digits 0 (print_digits most n) ≡ some n
unfolding print_digits
parse-print_digits zero n h k l = absurd (omega arith)
parse-print_digits (suc most) n h k l = elim (Bool-cases (ltb n 10)) [
  | inl e ↦ rw e (parse_last 0 n (ground arith) (omega arith) ∙ ap some (omega arith))
  | inr e ↦ rw e (
      parse_digits-append 0 (n / 10) (print_digits most (n / 10)) ((b'0' + n % 10) ∷ [])
        (parse-print_digits most (n / 10) (omega arith) (omega arith) (more_digits most n h e))
      ∙ parse_last (n / 10) (n % 10) (omega arith) (omega arith)
      ∙ ap some (omega arith))
]

-- A printed number starts with a digit, and has no other characters.
abbrev pub IsDigits : Text → Type 0
IsDigits = All (λ (c : ℕ). (b'0' ≤ c) × (c ≤ b'9'))

print_digits-IsDigits : (most n : ℕ) → IsDigits (print_digits most n)
unfolding print_digits
print_digits-IsDigits zero n = tt
print_digits-IsDigits (suc most) n = elim (Bool-cases (ltb n 10)) [
  | inl e ↦ rw e (ground arith, tt)
  | inr e ↦ rw e (
      All-append _ (print_digits most (n / 10)) ((b'0' + n % 10) ∷ [])
        (print_digits-IsDigits most (n / 10)) (omega arith, tt))
]

pub print_u64-IsDigits : (n : ℕ) → IsDigits (print_u64 n)
unfolding print_u64
print_u64-IsDigits n = print_digits-IsDigits 20 n

parse_u64-digits :
    (n : ℕ) (xs : Text) → IsDigits xs → xs ≢ [] → parse_digits 0 xs ≡ some n → parse_u64 xs ≡ some n
unfolding parse_u64
parse_u64-digits n [] d h e = absurd (h refl)
parse_u64-digits n (c ∷ cs) d h e = ground arith

print_digits-ne-nil : (most n : ℕ) → print_digits (suc most) n ≢ []
unfolding print_digits
print_digits-ne-nil most n h =
    ground (arith, ap length h, length-append (print_digits most (n / 10)) ((b'0' + n % 10) ∷ []))

-- The decimal text of a `u64` is read back as the same number.
pub parse-print_u64 : (n : ℕ) → n < u64_mod → parse_u64 (print_u64 n) ≡ some n
unfolding print_u64
parse-print_u64 n h =
    parse_u64-digits n (print_digits 20 n) (print_digits-IsDigits 20 n) (print_digits-ne-nil 19 n)
      (parse-print_digits 20 n (omega arith) h (omega arith))
