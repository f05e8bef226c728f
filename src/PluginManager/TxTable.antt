-- ===== src/PluginManager/TxTable.antt =====
-- pluginmanager/pluginmanager.go, the operations on the results of the transactions, on the store with
-- its pointers and on a table without them.
use mod_sec_intl_wace_lib.Base.{
  Bool, List, Option, String, [], false, if◌then◌else◌, lookup, none, some, true, ℕ, ◌&&◌, ◌=ₛ◌,
  ◌∷◌,
}
use mod_sec_intl_wace_lib.WaceApi.{ModelResults}
use mod_sec_intl_wace_lib.ConfigStore.PluginType.{ModelPluginType}
use mod_sec_intl_wace_lib.PluginManager.Tx.{
  ModelStatus, Store, add_sync_channel, close_transaction, init_transaction, load_sync_tx,
  notify_status, store_result,
}
use mod_sec_intl_wace_lib.PluginManager.CheckResult.{tx_results}

-- What is done with the transactions: `InitTransaction`, `CloseTransaction`, `storeResult` behind
-- `loadSyncTx`, `AddModelChannel` with "sync", and `notifyStatus`.
pub data TxOp : Type 0 where
  start close : String → TxOp
  report : String → String → ModelResults → TxOp
  add_channel : String → ModelPluginType → ℕ → TxOp
  notify : ℕ → ModelStatus → TxOp

-- `loadSyncTx`, and `storeResult` if there is a transaction.
unfoldable pub report_result : Store → String → String → ModelResults → Store
unfolding load_sync_tx
report_result s id model res = elim (load_sync_tx s id) [
  | none ↦ s
  | some a ↦ store_result s a model res
]

unfoldable pub step : TxOp → Store → Store
unfolding report_result
step (start id) s = init_transaction s id
step (close id) s = close_transaction s id
step (report id model res) s = report_result s id model res
step (add_channel id t c) s = add_sync_channel s id t c
step (notify c status) s = notify_status s c status

unfoldable pub run : List TxOp → Store → Store
unfolding step
run [] s = s
run (op ∷ ops) s = run ops (step op s)

-- What can be seen of the transactions: which are open, and the result of a model in one.
pub record Table : Type 0 where
  pub opened : String → Bool
  pub result : String → String → Option ModelResults

-- The same operations on a table; those on channels do nothing there.
unfoldable pub replay : List TxOp → Table → Table
replay [] t = t
replay (start id ∷ ops) t = replay ops (record {
  opened = λ j. if id =ₛ j then true else t.opened j;
  result = λ j model. if id =ₛ j then none else t.result j model;
})
replay (close id ∷ ops) t = replay ops (record {
  opened = λ j. if id =ₛ j then false else t.opened j;
  result = λ j model. if id =ₛ j then none else t.result j model;
})
replay (report id model res ∷ ops) t = replay ops (record {
  opened = t.opened;
  result =
      λ j other. if id =ₛ j && (model =ₛ other && t.opened id) then some res else t.result j other;
})
replay (add_channel id kind c ∷ ops) t = replay ops t
replay (notify c status ∷ ops) t = replay ops t

unfoldable pub is_open : Store → String → Bool
is_open s id = elim (load_sync_tx s id) [ none ↦ false | some a ↦ true ]

unfoldable pub result_of : Store → String → String → Option ModelResults
result_of s id model = elim (load_sync_tx s id) [
  | none ↦ none
  | some a ↦ lookup model (tx_results s a)
]
