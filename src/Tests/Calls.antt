-- ===== src/Tests/Calls.antt =====
-- Core at concrete inputs.
use mod_sec_intl_wace_lib.Base.{
  Bool, List, Map, [], insert, length, lookup, none, pos, refl, some, suc, true, ℕ, ◌↔◌, ◌∷◌, ◌≡◌,
  ◌≤◌, ◌⊎◌,
}
use mod_sec_intl_wace_lib.ConfigStore.PluginType.{is_valid}
use mod_sec_intl_wace_lib.ConfigStore.Defs.{ConfigStore}
use mod_sec_intl_wace_lib.WaceApi.{Bytes}
use mod_sec_intl_wace_lib.Tests.Data.{idle_store, loaded_decisions, store, strict, waf}
use mod_sec_intl_wace_lib.PluginManager.Tx.{init_transaction}
use mod_sec_intl_wace_lib.PluginManager.CheckResult.{Checked}
use mod_sec_intl_wace_lib.Core.Counters.{counter, occurs}
use mod_sec_intl_wace_lib.Core.Transactions.{
  CoreState, CoreSystem, Reached, add_transaction_analysis, analyze, analyzed, check_transaction,
  end_transaction, finish_call, fresh, open_transaction, opened, then_step,
}
use mod_sec_intl_wace_lib.Core.TransactionsLaws.{
  Reached-Counted, Reached-check_transaction, Reached-end_transaction, Reached-finish_call,
}
use mod_sec_intl_wace_lib.Core.Wait.{Metric, WaitEvent, arrived, expired, sync_wait, wait_loop}
use mod_sec_intl_wace_lib.Core.WaitLaws.{Accounts, expires, wait_loop-Accounts, wait_loop-ended_iff}

abbrev same_name : Bytes → Bytes → Bool
same_name xs ys = true

abbrev open_calls : Map ℕ
open_calls = ("tx", 1) ∷ []

-- One status comes, and then the context ends.
abbrev one_status : List WaitEvent
one_status = arrived (record { model_id = "trivial"; prob_attack = 1; error = none }) ∷ expired ∷ []

wait_loop-Accounts_example :
    Accounts sync_wait 3 one_status (wait_loop sync_wait 3 one_status).metrics
unfolding wait_loop
wait_loop-Accounts_example = wait_loop-Accounts sync_wait 3 one_status refl

wait_loop-ended_iff_example :
    ((wait_loop sync_wait 3 one_status).ended ≡ true)
    ↔ ((3 ≤ length one_status) ⊎ (expires one_status ≡ true))
wait_loop-ended_iff_example = wait_loop-ended_iff sync_wait 3 one_status

-- A transaction is opened, and one call for it is launched.
abbrev opened_core : CoreSystem
opened_core = record {
  core = open_transaction (record { analysis = []; store = idle_store }) "tx";
  calls = [];
}

abbrev busy_core : CoreSystem
busy_core = record {
  core = record { analysis = ("tx", 1) ∷ []; store = init_transaction idle_store "tx" };
  calls = "tx" ∷ [];
}

opened_core-Reached : Reached opened_core
unfolding lookup
opened_core-Reached = then_step (fresh idle_store) (opened "tx" refl)

busy_core-Reached : Reached busy_core
unfolding analyze is_valid add_transaction_analysis open_transaction lookup insert
busy_core-Reached =
    then_step opened_core-Reached (analyzed (pos 0) "tx" ("trivial" ∷ []) busy_core.core refl)

Reached-Counted_example : counter "tx" busy_core.core.analysis ≡ occurs "tx" busy_core.calls
Reached-Counted_example = Reached-Counted busy_core-Reached "tx"

Reached-finish_call_example :
    (m : Map ℕ) × (finish_call busy_core.core.analysis "tx" ≡ some m)
    × (counter "tx" busy_core.core.analysis ≡ suc (counter "tx" m))
Reached-finish_call_example = Reached-finish_call [] [] "tx" busy_core-Reached refl

Reached-end_transaction_example :
    ((c : CoreState) × (end_transaction busy_core.core "tx" ≡ some c))
    ↔ (occurs "tx" busy_core.calls ≡ 0)
Reached-end_transaction_example = Reached-end_transaction "tx" busy_core-Reached

Reached-check_transaction_example :
    ((r : Checked × List Metric) × (check_transaction strict
          (some store)
          loaded_decisions
          opened_core.core
          "tx"
          ("simple" ∷ [])
          waf
        ≡ some r))
    ↔ (occurs "tx" opened_core.calls ≡ 0)
Reached-check_transaction_example =
    Reached-check_transaction strict (some store) loaded_decisions "tx" ("simple" ∷ []) waf
      opened_core-Reached
