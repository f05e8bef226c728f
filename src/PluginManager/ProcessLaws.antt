-- ===== src/PluginManager/ProcessLaws.antt =====
-- pluginmanager/pluginmanager.go, the outcome of Process.
use mod_sec_intl_wace_lib.Base.{
  =ₛ_iff, Error, Map, Option-cases, Result, String, arith, err, false, inl, inr, lookup, none, ok,
  refl, some, ℕ, ◌∙◌, ◌≡◌,
}
use mod_sec_intl_wace_lib.WaceApi.{HttpPayload, ModelResults}
use mod_sec_intl_wace_lib.ConfigStore.PluginType.{ModelPluginType}
use mod_sec_intl_wace_lib.ConfigStore.Defs.{ConfigPointer}
use mod_sec_intl_wace_lib.PluginManager.Tx.{ModelStatus, Store, load_sync_tx}
use mod_sec_intl_wace_lib.PluginManager.TxLaws.{StoreInv, lookup-store_result}
use mod_sec_intl_wace_lib.PluginManager.CheckResult.{tx_results}
use mod_sec_intl_wace_lib.PluginManager.Process.{
  Context, ModelPluginData, Plugins, deliver, model_process, process,
}

-- The status that Process sends for a model, against the states before and after it: a failure
-- changes nothing, and a success stands for a result of the same probability in the transaction.
pub record Reports (s s' : Store) (id tx_id : String) (status : ModelStatus) : Type 0 where
  pub named : status.model_id ≡ id
  pub on_failure : (e : Error) → status.error ≡ some e → s' ≡ s
  pub on_success :
      status.error ≡ none
      → (a : ℕ) × (res : ModelResults) × (load_sync_tx s tx_id ≡ some a)
        × (lookup id (tx_results s' a) ≡ some res)
        × (res.prob_attack ≡ status.prob_attack)

deliver-Reports :
    (plugins : Plugins) (config : ConfigPointer) (s : Store) (id tx_id : String)
    (r : Result ModelResults)
    → StoreInv s
    → let (s', status) = deliver plugins config s id tx_id r in Reports s s' id tx_id status
unfolding deliver
deliver-Reports plugins config s id tx_id (err e) inv = record {
  named = refl;
  on_failure = λ x h. refl;
  on_success = λ h. cc;
}
deliver-Reports plugins config s id tx_id (ok res) inv =
    elim (Option-cases (load_sync_tx s tx_id)) [
      | inl e ↦
          rw (e, deliver) (record { named = refl; on_failure = λ x h. refl; on_success = λ h. cc })
      | inr (a, e) ↦
          rw (e, deliver)
            (record {
              named = refl;
              on_failure = λ x h. cc;
              on_success = λ h. (
                a,
                res,
                e,
                lookup-store_result s a a id id res (inv.allocated tx_id a (found a e))
                    ∙ ground (arith, =ₛ_iff id id),
                refl,
              );
            })
    ]
  where
    found : (a : ℕ) → load_sync_tx s tx_id ≡ some a → lookup tx_id s.sync_txs ≡ some a
    found a e = unfold load_sync_tx in e

-- `Process` sends exactly one status, which names the model: with an error, no transaction has
-- changed, and without one, the transaction is open and holds a result of the model with the
-- probability that the status shows. The addresses of the open transactions are allocated.
pub process-Reports :
    (plugins : Plugins) (config : ConfigPointer) (loaded : Map ModelPluginData) (s : Store)
    (ctx : Context) (id tx_id : String) (payload : HttpPayload) (t : ModelPluginType)
    → StoreInv s
    → let (s', status) = process plugins config loaded s ctx id tx_id payload t in
      Reports s s' id tx_id status
unfolding process
process-Reports plugins config loaded s ctx id tx_id payload t inv =
    elim (Option-cases (lookup id loaded)) [
      | inl e ↦
          rw (e, process) (record { named = refl; on_failure = λ x h. refl; on_success = λ h. cc })
      | inr (mp, e) ↦
          rw (e, process)
            (deliver-Reports plugins config s id tx_id
              (model_process plugins config ctx id mp
                (record { transaction_id = tx_id; payload = payload; training = false }) t)
              inv)
    ]
