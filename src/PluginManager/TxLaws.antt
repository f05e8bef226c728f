-- ===== src/PluginManager/TxLaws.antt =====
-- pluginmanager/pluginmanager.go, the addresses and the results of the transactions.
use mod_sec_intl_wace_lib.Base.{
  =ₛ_iff, Option-cases, String, [], arith, get_elem?, get_elem?-set, get_elem?-snoc, get_elem?-some,
  if◌then◌else◌, inl, inr, insert, length, length-append, length-set, lookup, lookup-erase,
  lookup-insert, some, ℕ, ◌&&◌, ◌<◌, ◌==◌, ◌=ₛ◌, ◌∷◌, ◌≡◌,
}
use mod_sec_intl_wace_lib.WaceApi.{ModelResults}
use mod_sec_intl_wace_lib.PluginManager.Tx.{
  ModelStatus, Store, SyncTx, close_transaction, init_transaction, load_sync_tx, no_channels,
  notify_status, store_result,
}
use mod_sec_intl_wace_lib.PluginManager.CheckResult.{tx_results}

-- Every open transaction has its syncTx, and no two share one.
pub record StoreInv (s : Store) : Type 0 where
  pub allocated : (id : String) (a : ℕ) → lookup id s.sync_txs ≡ some a → a < length s.sync_heap
  pub separate :
      (id j : String) (a : ℕ)
      → lookup id s.sync_txs ≡ some a
      → lookup j s.sync_txs ≡ some a
      → id ≡ j

pub init_transaction-StoreInv :
    (s : Store) (id : String) → StoreInv s → StoreInv (init_transaction s id)
unfolding init_transaction
init_transaction-StoreInv s id inv = record {
  allocated = λ j a f. ground (
    arith,
    inv.allocated j a,
    lookup-insert id j (length s.sync_heap) s.sync_txs,
    length-append {0} s.sync_heap ((record { results = []; channels = no_channels }) ∷ []),
  );
  separate = λ j k a f g. ground (
    arith,
    inv.allocated j a,
    inv.allocated k a,
    inv.separate j k a,
    lookup-insert id j (length s.sync_heap) s.sync_txs,
    lookup-insert id k (length s.sync_heap) s.sync_txs,
    =ₛ_iff id j,
    =ₛ_iff id k,
  );
}

pub close_transaction-StoreInv :
    (s : Store) (id : String) → StoreInv s → StoreInv (close_transaction s id)
unfolding close_transaction
close_transaction-StoreInv s id inv = record {
  allocated = λ j a f. ground (arith, inv.allocated j a, lookup-erase id j s.sync_txs);
  separate = λ j k a f g.
      ground
        (arith, inv.separate j k a, lookup-erase id j s.sync_txs, lookup-erase id k s.sync_txs);
}

pub store_result-StoreInv :
    (s : Store) (a : ℕ) (model : String) (res : ModelResults)
    → StoreInv s
    → StoreInv (store_result s a model res)
unfolding store_result
store_result-StoreInv s a model res inv = elim (Option-cases (get_elem? s.sync_heap a)) [
  | inl e ↦ rw (e, store_result) inv
  | inr (tx, e) ↦
      rw (e, store_result)
        (record {
          allocated = λ j b f. omega (
            arith,
            inv.allocated j b f,
            length-set {0} s.sync_heap a (record tx { results = insert model res tx.results }),
          );
          separate = inv.separate;
        })
]

-- A new transaction has no results, and every other one keeps its own.
pub init_transaction-results :
    (s : Store) (id j : String) (a : ℕ)
    → StoreInv s
    → load_sync_tx (init_transaction s id) j ≡ some a
    → tx_results (init_transaction s id) a ≡ (if id =ₛ j then [] else tx_results s a)
unfolding init_transaction load_sync_tx tx_results
init_transaction-results s id j a inv f = ground (
  arith,
  inv.allocated j a,
  lookup-insert id j (length s.sync_heap) s.sync_txs,
  get_elem?-snoc s.sync_heap a (record { results = []; channels = no_channels }),
)

-- A stored result is read back, and nothing else changes in any transaction.
pub lookup-store_result :
    (s : Store) (a b : ℕ) (model other : String) (res : ModelResults)
    → a < length s.sync_heap
    → lookup other (tx_results (store_result s a model res) b)
      ≡ (if a == b && model =ₛ other then some res else lookup other (tx_results s b))
unfolding store_result tx_results
lookup-store_result s a b model other res h =
    let (tx, e) = get_elem?-some s.sync_heap a h in
    let tx' : SyncTx = record tx { results = insert model res tx.results } in
    ground (arith, get_elem?-set s.sync_heap a b tx' h, lookup-insert model other res tx.results)

pub notify_status-sync_heap :
    (s : Store) (c : ℕ) (status : ModelStatus) → (notify_status s c status).sync_heap ≡ s.sync_heap
unfolding notify_status
notify_status-sync_heap s c status = ground arith
