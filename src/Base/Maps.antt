-- ===== src/Base/Maps.antt =====
-- `HashMap` as an association list, with the laws that its clients use.
use mathlib.Core.Path.{◌≡◌, refl, subst}
use mathlib.Core.Logic.{inl, inr}
use mathlib.Core.Option.{Option, none, some}
use mathlib.Core.List.{List, [], ◌∷◌}
use native.Mathlib.Omega.{arith}
use lightning_liquidity.Base.Tests.{if◌then◌else◌, Bool-cases}
use lightning_liquidity.Base.Lists.{All}
use lightning_liquidity.Base.Keys.{Eq, beq_refl}

abbrev pub Map : Type 0 → Type 0 → Type 0
Map K V = List (K × V)

module _ {K V : Type 0} ⦃e : Eq K⦄ where
  unfoldable pub get : K → Map K V → Option V
  get k [] = none
  get k ((j, v) ∷ m) = if e.beq j k then some v else get k m

  unfoldable pub insert : K → V → Map K V → Map K V
  insert k v [] = (k, v) ∷ []
  insert k v ((j, w) ∷ m) = if e.beq j k then (k, v) ∷ m else (j, w) ∷ insert k v m

  -- Removes every entry of the key; a map that `insert` builds has one at most.
  unfoldable pub remove : K → Map K V → Map K V
  remove k [] = []
  remove k ((j, v) ∷ m) = let rest = remove k m in if e.beq j k then rest else (j, v) ∷ rest

  pub get-insert :
      (k j : K) (v : V) (m : Map K V)
      → get j (insert k v m) ≡ (if e.beq k j then some v else get j m)
  unfolding get insert
  get-insert k j v [] = refl
  get-insert k j v ((i, w) ∷ m) =
      ground (arith, e.beq_iff k j, e.beq_iff i k, e.beq_iff i j, get-insert k j v m)

  pub get-remove :
      (k j : K) (m : Map K V) → get j (remove k m) ≡ (if e.beq k j then none else get j m)
  unfolding get remove
  get-remove k j [] = ground arith
  get-remove k j ((i, w) ∷ m) =
      ground (arith, e.beq_iff k j, e.beq_iff i k, e.beq_iff i j, get-remove k j m)

  pub get-insert_self : (k : K) (v : V) (m : Map K V) → get k (insert k v m) ≡ some v
  get-insert_self k v m = ground (arith, get-insert k k v m, beq_refl k)

  pub get-remove_self : (k : K) (m : Map K V) → get k (remove k m) ≡ none
  get-remove_self k m = ground (arith, get-remove k k m, beq_refl k)

  -- A predicate on every value.
  abbrev pub AllValues {κ} : (V → Type κ) → Map K V → Type κ
  AllValues P = All (λ (entry : K × V). P entry.1)

  pub insert-AllValues {κ} :
      (P : V → Type κ) (k : K) (v : V) (m : Map K V)
      → P v
      → AllValues P m
      → AllValues P (insert k v m)
  unfolding insert
  insert-AllValues P k v [] h all = (h, all)
  insert-AllValues P k v ((j, w) ∷ m) h all = elim (Bool-cases (e.beq j k)) [
    | inl t ↦ rw t (h, all.1)
    | inr t ↦ rw t (all.0, insert-AllValues P k v m h all.1)
  ]

  -- What was first inserted under the same key does not matter.
  pub insert_again-AllValues {κ} :
      (P : V → Type κ) (k : K) (v u : V) (m : Map K V)
      → P v
      → AllValues P m
      → AllValues P (insert k v (insert k u m))
  unfolding insert
  insert_again-AllValues P k v u [] h all = rw (beq_refl k) (h, all)
  insert_again-AllValues P k v u ((j, w) ∷ m) h all = elim (Bool-cases (e.beq j k)) [
    | inl t ↦ rw (t, insert) (rw (beq_refl k) (h, all.1))
    | inr t ↦ rw (t, insert) (rw t (all.0, insert_again-AllValues P k v u m h all.1))
  ]

  pub remove-AllValues {κ} :
      (P : V → Type κ) (k : K) (m : Map K V) → AllValues P m → AllValues P (remove k m)
  unfolding remove
  remove-AllValues P k [] all = all
  remove-AllValues P k ((j, w) ∷ m) all = elim (Bool-cases (e.beq j k)) [
    | inl t ↦ rw t (remove-AllValues P k m all.1)
    | inr t ↦ rw t (all.0, remove-AllValues P k m all.1)
  ]

  pub get-AllValues {κ} :
      (P : V → Type κ) (k : K) (v : V) (m : Map K V) → AllValues P m → get k m ≡ some v → P v
  unfolding get
  get-AllValues P k v [] all h = absurd (cc)
  get-AllValues P k v ((j, w) ∷ m) all h = elim (Bool-cases (e.beq j k)) [
    | inl t ↦ subst P (cc (rw t at h)) all.0
    | inr t ↦ get-AllValues P k v m all.1 (rw t at h)
  ]
