-- ===== src/Core/TransactionsLaws.antt =====
-- wacecore.go, the wait groups of the transactions in the states that the host can reach.
use mod_sec_intl_wace_lib.Base.{
  =ₛ_iff, List, Map, Option-cases, String, [], ap, arith, erase, inl, inr, lookup, ok, refl, some,
  suc, true, zero, ℕ, ◌++◌, ◌↔◌, ◌∙◌, ◌∷◌, ◌≡◌,
}
use mod_sec_intl_wace_lib.WaceApi.{WafData}
use mod_sec_intl_wace_lib.ConfigStore.PluginType.{ModelPluginType}
use mod_sec_intl_wace_lib.ConfigStore.Defs.{ConfigPointer}
use mod_sec_intl_wace_lib.PluginManager.Process.{DecisionPluginData, Plugins}
use mod_sec_intl_wace_lib.PluginManager.CheckResult.{Checked}
use mod_sec_intl_wace_lib.PluginManager.Tx.{close_transaction}
use mod_sec_intl_wace_lib.Core.Wait.{Metric}
use mod_sec_intl_wace_lib.Core.Counters.{
  counter, counter-absent, counter-add_transaction_analysis, counter-eq, counter-erase,
  counter-finish_call, counter-insert, counter-present, counter_cases, finish_call-decreases,
  occurs, occurs-middle,
}
use mod_sec_intl_wace_lib.Core.Transactions.{
  CoreState, CoreStep, CoreSystem, Reached, add_transaction_analysis, analyze, analyzed, check_now,
  check_transaction, closed, end_transaction, finish_call, finished, fresh, missing_transaction,
  open_transaction, opened, then_step, worked,
}

-- The counter of each transaction is the number of its calls in flight.
abbrev pub Counted : CoreSystem → Type 0
Counted y = (id : String) → counter id y.core.analysis ≡ occurs id y.calls

analyze-analysis :
    (y c : CoreState) (t : ModelPluginType) (j : String) (models : List String)
    → analyze y t j models ≡ ok (c, true)
    → c.analysis ≡ add_transaction_analysis y.analysis j
unfolding analyze
analyze-analysis y c t j [] e = ground arith
analyze-analysis y c t j (k ∷ models) e = ground arith

counter-end_transaction :
    (y c : CoreState) (j id : String)
    → end_transaction y j ≡ some c
    → counter id c.analysis ≡ counter id y.analysis
unfolding end_transaction
counter-end_transaction y c j id e = elim (Option-cases (lookup j y.analysis)) [
  | inl f ↦ ground arith
  | inr (zero, f) ↦ ground (
    arith,
    counter-present j 0 y.analysis f,
    counter-eq y.analysis j id,
    counter-erase j id y.analysis,
  )
  | inr (suc n, f) ↦ ground arith
]

CoreStep-Counted : {y z : CoreSystem} → CoreStep y z → Counted y → Counted z
unfolding open_transaction occurs
CoreStep-Counted {y} (opened j e) h id = ground (
  arith,
  h id,
  counter-absent j y.core.analysis e,
  counter-eq y.core.analysis j id,
  counter-insert j id 0 y.core.analysis,
)
CoreStep-Counted {y} (analyzed t j models c e) h id = ground (
  arith,
  h id,
  analyze-analysis y.core c t j models e,
  counter-add_transaction_analysis y.core.analysis j id,
)
CoreStep-Counted {y} (finished front back j m e f) h id = ground (
  arith,
  h id,
  h j,
  ap (occurs id) e,
  ap (occurs j) e,
  occurs-middle id j front back,
  occurs-middle j j front back,
  =ₛ_iff j j,
  counter-finish_call y.core.analysis m j id f,
)
CoreStep-Counted {y} (closed j c e) h id = counter-end_transaction y.core c j id e ∙ h id
CoreStep-Counted {y} (worked s) h id = h id

-- In every state that a host can reach which opens no transaction that is open, the counter of each
-- transaction is the number of its calls of callPlugins that are in flight, and a transaction
-- without a wait group has none.
pub Reached-Counted : {y : CoreSystem} → Reached y → Counted y
unfolding counter lookup occurs
Reached-Counted (fresh s) id = refl
Reached-Counted (then_step r step) id = CoreStep-Counted step (Reached-Counted r) id

-- In every state that a host can reach which opens no transaction that is open, a call of
-- callPlugins that ends takes its counter down from a number above 0, so wg.Done never panics.
pub Reached-finish_call :
    {y : CoreSystem} (front back : List String) (id : String)
    → Reached y
    → y.calls ≡ front ++ (id ∷ back)
    → (m : Map ℕ) × (finish_call y.core.analysis id ≡ some m)
      × (counter id y.core.analysis ≡ suc (counter id m))
Reached-finish_call {y} front back id r e = finish_call-decreases id y.core.analysis (
    ground
      (arith, Reached-Counted r id, ap (occurs id) e, occurs-middle id id front back, =ₛ_iff id id))

-- In every state that a host can reach which opens no transaction that is open, CloseTransaction
-- gets past its wait exactly when no call of callPlugins for its transaction is in flight.
pub Reached-end_transaction :
    {y : CoreSystem} (id : String)
    → Reached y
    → ((c : CoreState) × (end_transaction y.core id ≡ some c)) ↔ (occurs id y.calls ≡ 0)
unfolding end_transaction
Reached-end_transaction {y} id r = elim (counter_cases id y.core.analysis) [
  | inl (n, e, busy) ↦
      (λ (c, f). ground arith, λ none_left. absurd (ground (arith, Reached-Counted r id)))
  | inr (inl e) ↦ (
    λ _. ground (arith, Reached-Counted r id, counter-absent id y.core.analysis e),
    λ _. (y.core, rw (e, end_transaction) refl),
  )
  | inr (inr e) ↦ (
    λ _. ground (arith, Reached-Counted r id, counter-present id 0 y.core.analysis e),
    λ _. (
      record { analysis = erase id y.core.analysis; store = close_transaction y.core.store id },
      rw (e, end_transaction) refl,
    ),
  )
]

-- In every state that a host can reach which opens no transaction that is open, CheckTransaction
-- gets past its wait exactly when no call of callPlugins for its transaction is in flight.
pub Reached-check_transaction :
    {y : CoreSystem} (plugins : Plugins) (config : ConfigPointer) (loaded : Map DecisionPluginData)
    (id : String) (ids : List String) (waf : WafData)
    → Reached y
    → ((r : Checked × List Metric) × (check_transaction plugins config loaded y.core id ids waf
          ≡ some r))
      ↔ (occurs id y.calls ≡ 0)
unfolding check_transaction
Reached-check_transaction {y} plugins config loaded id ids waf r =
    elim (counter_cases id y.core.analysis) [
      | inl (n, e, busy) ↦
          (λ (c, f). ground arith, λ none_left. absurd (ground (arith, Reached-Counted r id)))
      | inr (inl e) ↦ (
        λ _. ground (arith, Reached-Counted r id, counter-absent id y.core.analysis e),
        λ _. ((missing_transaction id, []), rw (e, check_transaction) refl),
      )
      | inr (inr e) ↦ (
        λ _. ground (arith, Reached-Counted r id, counter-present id 0 y.core.analysis e),
        λ _. (check_now plugins config loaded y.core id ids waf, rw (e, check_transaction) refl),
      )
    ]
