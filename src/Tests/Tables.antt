-- ===== src/Tests/Tables.antt =====
-- The results of the transactions over a sequence of operations, at a concrete input.
use mod_sec_intl_wace_lib.Base.{List, [], erase, false, insert, lookup, none, refl, some, ◌∷◌, ◌≡◌}
use mod_sec_intl_wace_lib.Tests.Data.{idle_store}
use mod_sec_intl_wace_lib.PluginManager.Tx.{
  close_transaction, init_transaction, load_sync_tx, store_result,
}
use mod_sec_intl_wace_lib.PluginManager.CheckResult.{tx_results}
use mod_sec_intl_wace_lib.PluginManager.TxTable.{
  Table, TxOp, close, is_open, replay, report, report_result, result_of, run, start, step,
}
use mod_sec_intl_wace_lib.PluginManager.TxRefinement.{Shows, run-Shows}

abbrev no_table : Table
no_table = record { opened = λ id. false; result = λ id model. none }

idle_store-Shows : Shows idle_store no_table
unfolding lookup is_open result_of load_sync_tx
idle_store-Shows = record {
  inv = record { allocated = λ id a e. cc; separate = λ id j a e f. cc };
  same_open = λ id. refl;
  same_result = λ id model. refl;
}

-- A result is reported in a transaction that is open, and then in one that is closed.
abbrev some_ops : List TxOp
some_ops =
    start "tx"
    ∷ report "tx" "trivial" (record { prob_attack = 1; value = 7 })
    ∷ start "other"
    ∷ close "other"
    ∷ report "other" "trivial" (record { prob_attack = 1; value = 7 })
    ∷ []

run-Shows_example : Shows (run some_ops idle_store) (replay some_ops no_table)
run-Shows_example = run-Shows some_ops idle_store no_table idle_store-Shows

some_ops-result :
    result_of (run some_ops idle_store) "tx" "trivial"
    ≡ some (record { prob_attack = 1; value = 7 })
unfolding run step init_transaction report_result store_result result_of load_sync_tx tx_results
    insert lookup close_transaction erase
some_ops-result = refl
