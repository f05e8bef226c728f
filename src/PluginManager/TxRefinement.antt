-- ===== src/PluginManager/TxRefinement.antt =====
-- pluginmanager/pluginmanager.go, the results of the transactions over any sequence of operations: the
-- store with its pointers refines the table.
use mod_sec_intl_wace_lib.Base.{
  ==_iff, =ₛ_iff, List, Option-cases, String, [], ap, arith, false, get_elem?, get_elem?-lt,
  get_elem?-set, if-elim, if◌then◌else◌, inl, inr, length, length-set, lookup, lookup-erase,
  lookup-insert, none, refl, set, some, true, ℕ, ◌&&◌, ◌=ₛ◌, ◌∷◌, ◌≡◌,
}
use mod_sec_intl_wace_lib.WaceApi.{ModelResults}
use mod_sec_intl_wace_lib.ConfigStore.PluginType.{ModelPluginType}
use mod_sec_intl_wace_lib.PluginManager.Tx.{
  Channels, ModelStatus, Store, SyncTx, add_sync_channel, close_transaction, in_range,
  init_transaction, load_sync_tx, notify_status, set_channel, store_result,
}
use mod_sec_intl_wace_lib.PluginManager.CheckResult.{tx_results}
use mod_sec_intl_wace_lib.PluginManager.TxLaws.{
  StoreInv, close_transaction-StoreInv, init_transaction-StoreInv, init_transaction-results,
  lookup-store_result, notify_status-sync_heap, store_result-StoreInv,
}
use mod_sec_intl_wace_lib.PluginManager.TxTable.{
  Table, TxOp, add_channel, close, is_open, notify, replay, report, report_result, result_of, run,
  start, step,
}

-- The store shows what the table says, in every transaction and for every model.
pub record Shows (s : Store) (t : Table) : Type 0 where
  pub inv : StoreInv s
  pub same_open : (id : String) → is_open s id ≡ t.opened id
  pub same_result : (id model : String) → result_of s id model ≡ t.result id model

start-Shows :
    (s : Store) (t : Table) (id : String)
    → Shows s t
    → Shows (init_transaction s id) (record {
      opened = λ j. if id =ₛ j then true else t.opened j;
      result = λ j model. if id =ₛ j then none else t.result j model;
    })
unfolding is_open result_of load_sync_tx init_transaction lookup
start-Shows s t id r = record {
  inv = init_transaction-StoreInv s id r.inv;
  same_open =
      λ j. ground (arith, r.same_open j, lookup-insert id j (length s.sync_heap) s.sync_txs);
  same_result = λ j model. elim (Option-cases (lookup j s.sync_txs)) [
    | inl e ↦ ground (
      arith,
      e,
      r.same_result j model,
      lookup-insert id j (length s.sync_heap) s.sync_txs,
      init_transaction-results s id j (length s.sync_heap) r.inv,
    )
    | inr (a, e) ↦ ground (
      arith,
      e,
      r.same_result j model,
      lookup-insert id j (length s.sync_heap) s.sync_txs,
      init_transaction-results s id j a r.inv,
      init_transaction-results s id j (length s.sync_heap) r.inv,
    )
  ];
}

close-Shows :
    (s : Store) (t : Table) (id : String)
    → Shows s t
    → Shows (close_transaction s id) (record {
      opened = λ j. if id =ₛ j then false else t.opened j;
      result = λ j model. if id =ₛ j then none else t.result j model;
    })
unfolding is_open result_of load_sync_tx close_transaction tx_results
close-Shows s t id r = record {
  inv = close_transaction-StoreInv s id r.inv;
  same_open = λ j. ground (arith, r.same_open j, lookup-erase id j s.sync_txs);
  same_result = λ j model. ground (arith, r.same_result j model, lookup-erase id j s.sync_txs);
}

store_result-sync_txs :
    (s : Store) (a : ℕ) (model : String) (res : ModelResults)
    → (store_result s a model res).sync_txs ≡ s.sync_txs
unfolding store_result
store_result-sync_txs s a model res = ground arith

notify_status-sync_txs :
    (s : Store) (c : ℕ) (status : ModelStatus) → (notify_status s c status).sync_txs ≡ s.sync_txs
unfolding notify_status
notify_status-sync_txs s c status = ground arith

report-Shows :
    (s : Store) (t : Table) (id model : String) (res : ModelResults)
    → Shows s t
    → Shows (report_result s id model res) (record {
      opened = t.opened;
      result = λ j other.
          if id =ₛ j && (model =ₛ other && t.opened id) then some res else t.result j other;
    })
unfolding report_result is_open result_of load_sync_tx
report-Shows s t id model res r = elim (Option-cases (lookup id s.sync_txs)) [
  | inl e ↦
      rw (e, report_result)
        (record {
          inv = r.inv;
          same_open = r.same_open;
          same_result =
              λ j other. ground (arith, e, =ₛ_iff id j, r.same_open id, r.same_result j other);
        })
  | inr (a, e) ↦
      let inside = r.inv.allocated id a e in
      let s' = store_result s a model res in
      rw (e, report_result)
        (record {
          inv = store_result-StoreInv s a model res r.inv;
          same_open = λ j. ground (arith, store_result-sync_txs s a model res, r.same_open j);
          same_result = λ j other. elim (Option-cases (lookup j s.sync_txs)) [
            | inl f ↦ ground (
              arith,
              e,
              f,
              =ₛ_iff id j,
              r.same_result j other,
              store_result-sync_txs s a model res,
            )
            | inr (b, f) ↦ ground (
              arith,
              e,
              f,
              =ₛ_iff id j,
              r.same_result j other,
              r.same_open id,
              r.inv.separate id j a,
              store_result-sync_txs s a model res,
              lookup-store_result s a b model other res inside,
            )
          ];
        })
]

-- What leaves the transactions and their results alone.
alike-Shows :
    (s s' : Store) (t : Table)
    → s'.sync_txs ≡ s.sync_txs
    → length s'.sync_heap ≡ length s.sync_heap
    → ((a : ℕ) → tx_results s' a ≡ tx_results s a)
    → Shows s t
    → Shows s' t
unfolding is_open result_of load_sync_tx
alike-Shows s s' t same_txs same_length same_results r = record {
  inv = record {
    allocated = λ id a e. ground (arith, same_txs, same_length, r.inv.allocated id a);
    separate = λ id j a e f. ground (arith, same_txs, r.inv.separate id j a);
  };
  same_open = λ id. ground (arith, same_txs, r.same_open id);
  same_result = λ id model. elim (Option-cases (lookup id s.sync_txs)) [
    | inl e ↦ ground (arith, e, same_txs, r.same_result id model)
    | inr (a, e) ↦ ground (arith, e, same_txs, same_results a, r.same_result id model)
  ];
}

tx_results-channels :
    (s : Store) (a : ℕ) (tx : SyncTx) (channels : Channels)
    → get_elem? s.sync_heap a ≡ some tx
    → (b : ℕ)
    → tx_results (record s { sync_heap = set s.sync_heap a (record tx { channels = channels }) }) b
      ≡ tx_results s b
unfolding tx_results
tx_results-channels s a tx channels f b =
    let inside = get_elem?-lt s.sync_heap a tx f in
    ground (
      arith,
      f,
      ==_iff a b,
      get_elem?-set s.sync_heap a b (record tx { channels = channels }) inside,
    )

add_channel-Shows :
    (s : Store) (t : Table) (id : String) (kind : ModelPluginType) (c : ℕ)
    → Shows s t
    → Shows (add_sync_channel s id kind c) t
unfolding add_sync_channel load_sync_tx
add_channel-Shows s t id kind c r =
    if-elim (λ s'. Shows s' t) (in_range kind) _ _
      (λ _. elim (Option-cases (lookup id s.sync_txs)) [
        | inl e ↦ rw e r
        | inr (a, e) ↦ rw e (elim (Option-cases (get_elem? s.sync_heap a)) [
          | inl f ↦ rw f r
          | inr (tx, f) ↦ rw f (
              let tx' : SyncTx = record tx { channels = set_channel tx.channels kind (some c) } in
              alike-Shows s (record s { sync_heap = set s.sync_heap a tx' }) t refl
                (length-set s.sync_heap a tx')
                (tx_results-channels s a tx (set_channel tx.channels kind (some c)) f) r)
        ])
      ])
      (λ _. r)

notify-Shows :
    (s : Store) (t : Table) (c : ℕ) (status : ModelStatus)
    → Shows s t
    → Shows (notify_status s c status) t
unfolding tx_results
notify-Shows s t c status r =
    alike-Shows s (notify_status s c status) t (notify_status-sync_txs s c status)
      (ap length (notify_status-sync_heap s c status))
      (λ a. rw (notify_status-sync_heap s c status) refl) r

-- Over any sequence of operations on the transactions, with their pointers, which transactions are
-- open and which results they hold is what the table says on which the same operations are done: a
-- transaction that is opened again or closed has lost its results, a result is held only if its
-- transaction was open, and no operation shows in another transaction.
pub run-Shows :
    (ops : List TxOp) (s : Store) (t : Table) → Shows s t → Shows (run ops s) (replay ops t)
unfolding run step replay
run-Shows [] s t r = r
run-Shows (start id ∷ ops) s t r = run-Shows ops _ _ (start-Shows s t id r)
run-Shows (close id ∷ ops) s t r = run-Shows ops _ _ (close-Shows s t id r)
run-Shows (report id model res ∷ ops) s t r = run-Shows ops _ _ (report-Shows s t id model res r)
run-Shows (add_channel id kind c ∷ ops) s t r =
    run-Shows ops _ _ (add_channel-Shows s t id kind c r)
run-Shows (notify c status ∷ ops) s t r = run-Shows ops _ _ (notify-Shows s t c status r)
