-- ===== src/Core/SwapLaws.antt =====
-- wacecore.go, callPlugins: calls of a transaction that change places, by what they leave.
use mod_sec_intl_wace_lib.Base.{
  =ₛ_iff, All, Bool-cases, List, Map, Option, Option-cases, String, [], ap, arith, err, false,
  if◌then◌else◌, inl, inr, lookup, lookup-insert, none, ok, refl, some, sym, ◌=ₛ◌, ◌∙◌, ◌∷◌, ◌≡◌,
  ◌⊎◌,
}
use mod_sec_intl_wace_lib.WaceApi.{ModelResults}
use mod_sec_intl_wace_lib.Core.Dispatch.{Dispatch}
use mod_sec_intl_wace_lib.Core.Phase.{Phase}
use mod_sec_intl_wace_lib.Core.Outcomes.{outcome, results_after, store_outcome}
use mod_sec_intl_wace_lib.Core.SyncPhaseLaws.{All-Permᴰ}
use mathlib.Core.List.{Permᴰ}

-- Two maps that read alike.
abbrev pub ReadAlike : Map ModelResults → Map ModelResults → Type 0
ReadAlike m m' = (id : String) → lookup id m ≡ lookup id m'

-- What one call leaves among the results.
unfoldable after_call : Phase → Dispatch → Map ModelResults → Map ModelResults
unfolding store_outcome
after_call p d m = elim (outcome p d) [ none ↦ m | some r ↦ store_outcome d.model r m ]

-- The result under an identifier that a call leaves, if it leaves one.
unfoldable left_by : Phase → Dispatch → String → Option ModelResults
left_by p d id = elim (outcome p d) [
  | none ↦ none
  | some r ↦ elim r [ err e ↦ none | ok res ↦ if d.model =ₛ id then some res else none ]
]

unfoldable or_else : Option ModelResults → Option ModelResults → Option ModelResults
or_else none o = o
or_else (some res) o = some res

or_else_comm :
    (a b o : Option ModelResults)
    → (a ≡ none) ⊎ (b ≡ none)
    → or_else a (or_else b o) ≡ or_else b (or_else a o)
unfolding or_else
or_else_comm none b o h = refl
or_else_comm (some x) none o h = refl
or_else_comm (some x) (some y) o (inl e) = cc
or_else_comm (some x) (some y) o (inr e) = cc

left_by-other :
    (p : Phase) (d : Dispatch) (id : String) → (d.model =ₛ id) ≡ false → left_by p d id ≡ none
unfolding left_by
left_by-other p d id h = ground (arith, h)

lookup-after_call :
    (p : Phase) (d : Dispatch) (m : Map ModelResults) (id : String)
    → lookup id (after_call p d m) ≡ or_else (left_by p d id) (lookup id m)
unfolding after_call store_outcome left_by or_else
lookup-after_call p d m id = elim (Option-cases (outcome p d)) [
  | inl silent ↦ rw (silent, after_call, left_by) refl
  | inr (err e, o) ↦ rw (o, after_call, left_by) refl
  | inr (ok res, o) ↦ rw (o, after_call, left_by) (ground (arith, lookup-insert d.model id res m))
]

after_call-ReadAlike :
    (p : Phase) (d : Dispatch) (m m' : Map ModelResults)
    → ReadAlike m m'
    → ReadAlike (after_call p d m) (after_call p d m')
after_call-ReadAlike p d m m' h id =
    lookup-after_call p d m id
    ∙ ap (or_else (left_by p d id)) (h id)
    ∙ sym (lookup-after_call p d m' id)

lookup-after_calls :
    (p : Phase) (d e : Dispatch) (m : Map ModelResults) (id : String)
    → lookup id (after_call p e (after_call p d m))
      ≡ or_else (left_by p e id) (or_else (left_by p d id) (lookup id m))
lookup-after_calls p d e m id =
    lookup-after_call p e (after_call p d m) id
    ∙ ap (or_else (left_by p e id)) (lookup-after_call p d m id)

-- Every call is the one that its model is due.
abbrev pub IsCallOf : (String → Dispatch) → Dispatch → Type 0
IsCallOf f d = d ≡ f d.model

-- Two calls may change places.
after_call-swapped :
    (p : Phase) (f : String → Dispatch) (d e : Dispatch) (m : Map ModelResults)
    → IsCallOf f d
    → IsCallOf f e
    → ReadAlike (after_call p e (after_call p d m)) (after_call p d (after_call p e m))
after_call-swapped p f d e m hd he id = elim (Bool-cases (d.model =ₛ e.model)) [
  | inl same ↦
      let equal : d ≡ e = hd ∙ ap f ((=ₛ_iff d.model e.model).0 same) ∙ sym he in rw equal refl
  | inr other ↦
      let apart : (left_by p e id ≡ none) ⊎ (left_by p d id ≡ none) =
        elim (Bool-cases (e.model =ₛ id)) [
          | inr h ↦ inl (left_by-other p e id h)
          | inl h ↦ inr (left_by-other p d id (rw ((=ₛ_iff e.model id).0 h) at other))
        ] in
      lookup-after_calls p d e m id
      ∙ or_else_comm (left_by p e id) (left_by p d id) (lookup id m) apart
      ∙ sym (lookup-after_calls p e d m id)
]

results_after-after_call :
    (p : Phase) (d : Dispatch) (ds : List Dispatch) (m : Map ModelResults)
    → results_after p (d ∷ ds) m ≡ results_after p ds (after_call p d m)
unfolding results_after after_call
results_after-after_call p d ds m = refl

results_after-ReadAlike :
    (p : Phase) (ds : List Dispatch) (m m' : Map ModelResults)
    → ReadAlike m m'
    → ReadAlike (results_after p ds m) (results_after p ds m')
unfolding results_after
results_after-ReadAlike p [] m m' h = h
results_after-ReadAlike p (d ∷ ds) m m' h =
    rw (results_after-after_call p d ds m, results_after-after_call p d ds m')
      (results_after-ReadAlike p ds (after_call p d m) (after_call p d m')
        (after_call-ReadAlike p d m m' h))

-- The results can be read the same after the calls in any order.
pub results_after-Permᴰ :
    (p : Phase) (f : String → Dispatch) (ds es : List Dispatch) (m : Map ModelResults)
    → Permᴰ ds es
    → All (IsCallOf f) ds
    → ReadAlike (results_after p ds m) (results_after p es m)
results_after-Permᴰ p f ds es m Permᴰ.nil h = λ id. refl
results_after-Permᴰ p f ds es m (Permᴰ.cons {a = a} {b = b} {l₁ = us} {l₂ = vs} e d) (h, hs) =
    rw⁻¹ e (
      rw (results_after-after_call p a us m, results_after-after_call p a vs m)
        (results_after-Permᴰ p f us vs (after_call p a m) d hs))
results_after-Permᴰ p f ds es m (Permᴰ.swap {a = a} {b = b} {l = us} e e') (h, (h', hs)) =
    rw⁻¹ (e, e')
      (rw
        (
          results_after-after_call p a (b ∷ us) m,
          results_after-after_call p b us (after_call p a m),
          results_after-after_call p b (a ∷ us) m,
          results_after-after_call p a us (after_call p b m),
        )
        (results_after-ReadAlike p us _ _ (after_call-swapped p f a b m h h')))
results_after-Permᴰ p f ds es m (Permᴰ.trans {l₂ = us} d d') h = λ id.
    results_after-Permᴰ p f ds us m d h id
    ∙ results_after-Permᴰ p f us es m d' (All-Permᴰ (IsCallOf f) ds us d h) id
