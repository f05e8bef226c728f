-- ===== src/Core/Transactions.antt =====
-- wacecore.go, the entry points of the host around callPlugins: InitTransaction, Analyze,
-- CheckTransaction and CloseTransaction, with the wait group of each transaction.
--
-- `analysisMap` is a map to the counter of each wait group. A call of callPlugins finds its wait
-- group when it starts and is done with it when it ends; both are the entry of its transaction as
-- long as the host opens a transaction once, which is what the steps below suppose. A wait that ends
-- and what its caller then does are one step: the host does not analyse a transaction while it
-- closes it.
use mod_sec_intl_wace_lib.Base.{
  Bool, List, Map, Option, Result, String, [], erase, err, false, if◌then◌else◌, insert,
  invalid_models_type, lookup, no_such_transaction, none, ok, some, suc, true, zero, ℕ, ◌++◌, ◌∷◌,
  ◌≡◌,
}
use mod_sec_intl_wace_lib.WaceApi.{WafData}
use mod_sec_intl_wace_lib.ConfigStore.PluginType.{ModelPluginType, is_valid}
use mod_sec_intl_wace_lib.ConfigStore.Defs.{ConfigPointer}
use mod_sec_intl_wace_lib.PluginManager.Tx.{Store, close_transaction, init_transaction}
use mod_sec_intl_wace_lib.PluginManager.Process.{DecisionPluginData, Plugins}
use mod_sec_intl_wace_lib.PluginManager.CheckResult.{Checked, check_result}
use mod_sec_intl_wace_lib.Core.Wait.{Metric, record_checked}

-- The counters, and the plugin manager's transactions.
pub record CoreState : Type 0 where
  pub analysis : Map ℕ
  pub store : Store

-- `InitTransaction`
unfoldable pub open_transaction : CoreState → String → CoreState
open_transaction c id = record {
  analysis = insert id 0 c.analysis;
  store = init_transaction c.store id;
}

-- `addTransactionAnalysis`: a missing entry is made.
unfoldable pub add_transaction_analysis : Map ℕ → String → Map ℕ
add_transaction_analysis m id = elim (lookup id m) [
  | none ↦ insert id 1 m
  | some n ↦ insert id (suc n) m
]

-- `Analyze`: the state, and whether callPlugins has been started.
unfoldable pub analyze :
    CoreState → ModelPluginType → String → List String → Result (CoreState × Bool)
analyze c t id [] = ok (c, false)
analyze c t id (_ ∷ _) =
    if is_valid t
    then ok (record c { analysis = add_transaction_analysis c.analysis id }, true)
    else err (invalid_models_type t)

-- `wg.Done()` at the end of callPlugins. A call that does not find its transaction returns before;
-- `none` is the panic of a wait group whose counter is 0.
unfoldable pub finish_call : Map ℕ → String → Option (Map ℕ)
finish_call m id = elim (lookup id m) [
  | none ↦ some m
  | some zero ↦ none
  | some (suc n) ↦ some (insert id n m)
]

-- `CloseTransaction`; `none` where it waits. A missing transaction is only logged.
unfoldable pub end_transaction : CoreState → String → Option CoreState
end_transaction c id = elim (lookup id c.analysis) [
  | none ↦ some c
  | some zero ↦
      some (record { analysis = erase id c.analysis; store = close_transaction c.store id })
  | some (suc n) ↦ none
]

-- What is recorded after a check.
unfoldable pub check_metrics : Checked → List Metric
check_metrics r = elim r.error [ none ↦ record_checked r.block | some e ↦ [] ]

-- What CheckTransaction returns for a transaction that it does not find.
abbrev pub missing_transaction : String → Checked
missing_transaction id = record {
  block = false;
  decided = false;
  error = some (no_such_transaction id);
  shadows = [];
}

module _ (plugins : Plugins) (config : ConfigPointer) (loaded : Map DecisionPluginData) where
  -- CheckTransaction behind its wait.
  unfoldable pub check_now : CoreState → String → List String → WafData → Checked × List Metric
  unfolding check_metrics
  check_now c id ids waf =
      let r = check_result plugins config loaded c.store id ids waf in (r, check_metrics r)

  -- `CheckTransaction`: the three results, and what is recorded; `none` where it waits.
  unfoldable pub check_transaction :
      CoreState → String → List String → WafData → Option (Checked × List Metric)
  check_transaction c id ids waf = elim (lookup id c.analysis) [
    | none ↦ some (missing_transaction id, [])
    | some zero ↦ some (check_now c id ids waf)
    | some (suc n) ↦ none
  ]

-- The core with the transactions of the calls of callPlugins that are in flight.
pub record CoreSystem : Type 0 where
  pub core : CoreState
  pub calls : List String

-- The steps, in any order. `worked` is any change of the plugin manager's transactions, by calls in
-- flight and by results that come.
pub data CoreStep (y : CoreSystem) : CoreSystem → Type 0 where
  opened :
      (id : String)
      → lookup id y.core.analysis ≡ none
      → CoreStep y (record y { core = open_transaction y.core id })
  analyzed :
      (t : ModelPluginType) (id : String) (models : List String) (c : CoreState)
      → analyze y.core t id models ≡ ok (c, true)
      → CoreStep y (record { core = c; calls = id ∷ y.calls })
  finished :
      (front back : List String) (id : String) (m : Map ℕ)
      → y.calls ≡ front ++ (id ∷ back)
      → finish_call y.core.analysis id ≡ some m
      → CoreStep y (record { core = record y.core { analysis = m }; calls = front ++ back })
  closed :
      (id : String) (c : CoreState)
      → end_transaction y.core id ≡ some c
      → CoreStep y (record y { core = c })
  worked : (s : Store) → CoreStep y (record y { core = record y.core { store = s } })

-- What the host can reach from a fresh start.
pub data Reached : CoreSystem → Type 0 where
  fresh : (s : Store) → Reached (record { core = record { analysis = []; store = s }; calls = [] })
  then_step : {y z : CoreSystem} → Reached y → CoreStep y z → Reached z
