-- ===== src/Base/Coding.antt =====
-- Codes of values as lists of numbers that are read back with what follows them: a concrete
-- serialization for the tests.
use Prim.Native.Nat.{ℕ, zero, suc}
use mathlib.Core.Path.{◌≡◌, refl}
use mathlib.Core.Bool.{Bool, true, false}
use mathlib.Core.Option.{Option, none, some}
use mathlib.Core.List.{List, [], ◌∷◌}
use native.Mathlib.Omega.{arith}
use lightning_liquidity.Base.Options.{◌>>=◌}
use lightning_liquidity.Base.Lists.{length}

pub record Coding (A : Type 0) : Type 0 where
  pub put : A → List ℕ → List ℕ
  pub get : List ℕ → Option (A × List ℕ)
  pub get-put : (a : A) (rest : List ℕ) → get (put a rest) ≡ some (a, rest)

abbrev pub get_nat : List ℕ → Option (ℕ × List ℕ)
get_nat [] = none
get_nat (n ∷ rest) = some (n, rest)

abbrev pub nat : Coding ℕ
nat = record { put = λ n rest. n ∷ rest; get = get_nat; get-put = λ n rest. refl }

module _ {A B : Type 0} (a : Coding A) (b : Coding B) where
  abbrev pub get_pair : List ℕ → Option ((A × B) × List ℕ)
  get_pair codes = do (x, more) ← a.get codes; (y, rest) ← b.get more; some ((x, y), rest)

  pub get_pair_lem :
      (p : A × B) (rest : List ℕ) → get_pair (a.put p.0 (b.put p.1 rest)) ≡ some (p, rest)
  get_pair_lem (x, y) rest = ground (arith, a.get-put x (b.put y rest), b.get-put y rest)

  abbrev pub pair : Coding (A × B)
  pair = record {
    put = λ p rest. a.put p.0 (b.put p.1 rest);
    get = get_pair;
    get-put = get_pair_lem;
  }

module _ {A B : Type 0} (a : Coding A) (from : A → B) (to : B → A)
    (law : (y : B) → from (to y) ≡ y) where
  abbrev pub get_as : List ℕ → Option (B × List ℕ)
  get_as codes = do (x, rest) ← a.get codes; some (from x, rest)

  pub get_as_lem : (y : B) (rest : List ℕ) → get_as (a.put (to y) rest) ≡ some (y, rest)
  get_as_lem y rest = ground (arith, a.get-put (to y) rest, law y)

  abbrev pub as_type : Coding B
  as_type = record { put = λ y rest. a.put (to y) rest; get = get_as; get-put = get_as_lem }

module _ {A : Type 0} (a : Coding A) where
  abbrev pub put_option : Option A → List ℕ → List ℕ
  put_option none rest = 0 ∷ rest
  put_option (some x) rest = 1 ∷ a.put x rest

  abbrev pub get_option : List ℕ → Option (Option A × List ℕ)
  get_option [] = none
  get_option (zero ∷ rest) = some (none, rest)
  get_option (suc n ∷ codes) = do (x, rest) ← a.get codes; some (some x, rest)

  pub get_option_lem :
      (o : Option A) (rest : List ℕ) → get_option (put_option o rest) ≡ some (o, rest)
  get_option_lem none rest = refl
  get_option_lem (some x) rest = ground (arith, a.get-put x rest)

  abbrev pub option : Coding (Option A)
  option = record { put = put_option; get = get_option; get-put = get_option_lem }

  abbrev pub put_all : List A → List ℕ → List ℕ
  put_all [] rest = rest
  put_all (x ∷ xs) rest = a.put x (put_all xs rest)

  abbrev pub get_all : ℕ → List ℕ → Option (List A × List ℕ)
  get_all zero codes = some ([], codes)
  get_all (suc n) codes = do
    (x, more) ← a.get codes
    (xs, rest) ← get_all n more
    some (x ∷ xs, rest)

  pub get_all_lem :
      (xs : List A) (rest : List ℕ) → get_all (length xs) (put_all xs rest) ≡ some (xs, rest)
  get_all_lem [] rest = refl
  get_all_lem (x ∷ xs) rest = ground (arith, a.get-put x (put_all xs rest), get_all_lem xs rest)

  abbrev pub get_list : List ℕ → Option (List A × List ℕ)
  get_list [] = none
  get_list (n ∷ codes) = get_all n codes

  abbrev pub list : Coding (List A)
  list = record {
    put = λ xs rest. length xs ∷ put_all xs rest;
    get = get_list;
    get-put = get_all_lem;
  }

abbrev pub put_bool : Bool → List ℕ → List ℕ
put_bool false rest = 0 ∷ rest
put_bool true rest = 1 ∷ rest

abbrev pub get_bool : List ℕ → Option (Bool × List ℕ)
get_bool [] = none
get_bool (zero ∷ rest) = some (false, rest)
get_bool (suc n ∷ rest) = some (true, rest)

pub get_bool_lem : (b : Bool) (rest : List ℕ) → get_bool (put_bool b rest) ≡ some (b, rest)
get_bool_lem true rest = refl
get_bool_lem false rest = refl

abbrev pub bool : Coding Bool
bool = record { put = put_bool; get = get_bool; get-put = get_bool_lem }
