-- ===== src/Base/Maps.antt =====
-- Go maps with text keys, as association lists; a missing key reads as `none`.
use Prim.Native.Nat.{ℕ, ◌+◌, ◌≤◌}
use Prim.Native.String.{String}
use mathlib.Core.Path.{◌≡◌, refl}
use mathlib.Core.Option.{Option, none, some}
use mathlib.Core.List.{List, [], ◌∷◌}
use native.Mathlib.Omega.{arith}
use mod_sec_intl_wace_lib.Base.Tests.{◌=ₛ◌, =ₛ_iff, if◌then◌else◌}

abbrev pub Map {ℓ} : Type ℓ → Type ℓ
Map V = List (String × V)

module _ {ℓ} {V : Type ℓ} where
  -- `m[k]`
  unfoldable pub lookup : String → Map V → Option V
  lookup k [] = none
  lookup k ((j, v) ∷ m) = if j =ₛ k then some v else lookup k m

  -- `m[k] = v`
  unfoldable pub insert : String → V → Map V → Map V
  insert k v [] = (k, v) ∷ []
  insert k v ((j, w) ∷ m) = if j =ₛ k then (k, v) ∷ m else (j, w) ∷ insert k v m

  -- `delete(m, k)`
  unfoldable pub erase : String → Map V → Map V
  erase k [] = []
  erase k ((j, v) ∷ m) = let rest = erase k m in if j =ₛ k then rest else (j, v) ∷ rest

  pub lookup-insert :
      (k j : String) (v : V) (m : Map V)
      → lookup j (insert k v m) ≡ (if k =ₛ j then some v else lookup j m)
  unfolding lookup insert
  lookup-insert k j v [] = refl
  lookup-insert k j v ((i, w) ∷ m) =
      ground (arith, =ₛ_iff k j, =ₛ_iff i k, =ₛ_iff i j, lookup-insert k j v m)

  pub lookup-erase :
      (k j : String) (m : Map V) → lookup j (erase k m) ≡ (if k =ₛ j then none else lookup j m)
  unfolding lookup erase
  lookup-erase k j [] = ground arith
  lookup-erase k j ((i, w) ∷ m) =
      ground (arith, =ₛ_iff k j, =ₛ_iff i k, =ₛ_iff i j, lookup-erase k j m)

  -- No key stands twice.
  abbrev pub Distinct : Map V → Type ℓ
  Distinct [] = Unit
  Distinct ((k, v) ∷ m) = (lookup k m ≡ none) × Distinct m

  pub Distinct-insert : (k : String) (v : V) (m : Map V) → Distinct m → Distinct (insert k v m)
  unfolding insert lookup
  Distinct-insert k v [] h = (refl, tt)
  Distinct-insert k v ((j, w) ∷ m) h =
      ground (arith, =ₛ_iff j k, =ₛ_iff k j, lookup-insert k j v m, Distinct-insert k v m h.1)

  pub Distinct-erase : (k : String) (m : Map V) → Distinct m → Distinct (erase k m)
  unfolding erase
  Distinct-erase k [] h = tt
  Distinct-erase k ((j, w) ∷ m) h = ground (arith, lookup-erase k j m, Distinct-erase k m h.1)

  -- The sum over the values of a map, and what one key adds to it.
  unfoldable pub sum_of : (V → ℕ) → Map V → ℕ
  sum_of f [] = 0
  sum_of f ((k, v) ∷ m) = f v + sum_of f m

  unfoldable pub amount : (V → ℕ) → Option V → ℕ
  amount f none = 0
  amount f (some v) = f v

  pub sum_of-insert :
      (f : V → ℕ) (k : String) (v : V) (m : Map V)
      → sum_of f (insert k v m) + amount f (lookup k m) ≡ f v + sum_of f m
  unfolding sum_of insert lookup amount
  sum_of-insert f k v [] = omega arith
  sum_of-insert f k v ((j, w) ∷ m) = ground (arith, sum_of-insert f k v m)

  pub sum_of-erase :
      (f : V → ℕ) (k : String) (m : Map V)
      → Distinct m
      → sum_of f (erase k m) + amount f (lookup k m) ≡ sum_of f m
  unfolding sum_of erase lookup amount
  sum_of-erase f k [] h = omega arith
  sum_of-erase f k ((j, w) ∷ m) h = ground (arith, =ₛ_iff j k, sum_of-erase f k m h.1)

  pub amount-le-sum_of : (f : V → ℕ) (k : String) (m : Map V) → amount f (lookup k m) ≤ sum_of f m
  unfolding sum_of lookup amount
  amount-le-sum_of f k [] = omega arith
  amount-le-sum_of f k ((j, w) ∷ m) = ground (arith, amount-le-sum_of f k m)

  pub sum_of_zero :
      (f g : V → ℕ) (m : Map V) → ((v : V) → g v ≡ 0 → f v ≡ 0) → sum_of g m ≡ 0 → sum_of f m ≡ 0
  unfolding sum_of
  sum_of_zero f g [] h z = refl
  sum_of_zero f g ((k, v) ∷ m) h z =
      omega (arith, h v (omega arith), sum_of_zero f g m h (omega arith))

  pub sum_of_all : (f : V → ℕ) (m : Map V) → ((v : V) → f v ≡ 0) → sum_of f m ≡ 0
  unfolding sum_of
  sum_of_all f [] h = refl
  sum_of_all f ((k, v) ∷ m) h = omega (arith, h v, sum_of_all f m h)
