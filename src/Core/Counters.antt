-- ===== src/Core/Counters.antt =====
-- wacecore.go, the counters of the wait groups: what each operation makes of them.
use mod_sec_intl_wace_lib.Base.{
  =ₛ_iff, List, Map, Option-cases, String, [], ap, arith, erase, if◌then◌else◌, inl, inr, insert,
  lookup, lookup-erase, lookup-insert, none, refl, some, suc, true, zero, ℕ, ◌++◌, ◌<◌, ◌=ₛ◌, ◌∷◌,
  ◌≡◌, ◌⊎◌,
}
use mod_sec_intl_wace_lib.Core.Transactions.{add_transaction_analysis, finish_call}

-- How often a transaction is in a list.
unfoldable pub occurs : String → List String → ℕ
occurs id [] = 0
occurs id (j ∷ js) = let rest = occurs id js in if j =ₛ id then suc rest else rest

pub occurs-middle :
    (id j : String) (front back : List String)
    → occurs id (front ++ (j ∷ back))
      ≡ (if j =ₛ id then suc (occurs id (front ++ back)) else occurs id (front ++ back))
unfolding occurs
occurs-middle id j [] back = refl
occurs-middle id j (k ∷ front) back = ground (arith, occurs-middle id j front back)

-- A missing counter reads as 0.
unfoldable pub counter : String → Map ℕ → ℕ
counter id m = elim (lookup id m) [ none ↦ 0 | some n ↦ n ]

pub counter-insert :
    (j id : String) (n : ℕ) (m : Map ℕ)
    → counter id (insert j n m) ≡ (if j =ₛ id then n else counter id m)
unfolding counter
counter-insert j id n m = ground (arith, lookup-insert j id n m)

pub counter-erase :
    (j id : String) (m : Map ℕ) → counter id (erase j m) ≡ (if j =ₛ id then 0 else counter id m)
unfolding counter
counter-erase j id m = ground (arith, lookup-erase j id m)

pub counter-absent : (j : String) (m : Map ℕ) → lookup j m ≡ none → counter j m ≡ 0
unfolding counter
counter-absent j m e = ground arith

pub counter-present : (j : String) (n : ℕ) (m : Map ℕ) → lookup j m ≡ some n → counter j m ≡ n
unfolding counter
counter-present j n m e = ground arith

pub counter-eq : (m : Map ℕ) (j id : String) → (j =ₛ id) ≡ true → counter j m ≡ counter id m
counter-eq m j id e = ap (λ k. counter k m) ((=ₛ_iff j id).0 e)

pub counter-add_transaction_analysis :
    (m : Map ℕ) (j id : String)
    → counter id (add_transaction_analysis m j)
      ≡ (if j =ₛ id then suc (counter id m) else counter id m)
unfolding add_transaction_analysis
counter-add_transaction_analysis m j id = elim (Option-cases (lookup j m)) [
  | inl e ↦ ground (arith, counter-absent j m e, counter-eq m j id, counter-insert j id 1 m)
  | inr (n, e) ↦
      ground (arith, counter-present j n m e, counter-eq m j id, counter-insert j id (suc n) m)
]

pub counter-finish_call :
    (m m' : Map ℕ) (j id : String)
    → finish_call m j ≡ some m'
    → 0 < counter j m
    → counter id m ≡ (if j =ₛ id then suc (counter id m') else counter id m')
unfolding finish_call
counter-finish_call m m' j id f h = elim (Option-cases (lookup j m)) [
  | inl e ↦ absurd (ground (arith, counter-absent j m e))
  | inr (zero, e) ↦ absurd (ground (arith, counter-present j 0 m e))
  | inr (suc n, e) ↦
      ground (arith, counter-present j (suc n) m e, counter-eq m j id, counter-insert j id n m)
]

-- A call that is counted can end.
pub finish_call-decreases :
    (id : String) (m : Map ℕ)
    → 0 < counter id m
    → (m' : Map ℕ) × (finish_call m id ≡ some m') × (counter id m ≡ suc (counter id m'))
unfolding finish_call
finish_call-decreases id m h = elim (Option-cases (lookup id m)) [
  | inl e ↦ absurd (ground (arith, counter-absent id m e))
  | inr (zero, e) ↦ absurd (ground (arith, counter-present id 0 m e))
  | inr (suc n, e) ↦ (
    insert id n m,
    rw (e, finish_call) refl,
    ground (arith, counter-present id (suc n) m e, counter-insert id id n m, =ₛ_iff id id),
  )
]

-- The entry of a transaction: with calls in flight, missing, or with none.
pub counter_cases :
    (id : String) (m : Map ℕ)
    → ((n : ℕ) × (lookup id m ≡ some (suc n)) × (counter id m ≡ suc n))
      ⊎ (lookup id m ≡ none)
      ⊎ (lookup id m ≡ some 0)
counter_cases id m = elim (Option-cases (lookup id m)) [
  | inl e ↦ inr (inl e)
  | inr (zero, e) ↦ inr (inr e)
  | inr (suc n, e) ↦ inl (n, e, counter-present id (suc n) m e)
]
