-- ===== src/Tests/Transactions.antt =====
-- PluginManager at concrete inputs.
use mod_sec_intl_wace_lib.Base.{
  =ₛ_iff, [], arith, false, get_elem?, inl, insert, length, lookup, none, ok, pos, refl, some, ◌+◌,
  ◌∷◌, ◌≡◌, ◌⊎◌,
}
use mod_sec_intl_wace_lib.WaceApi.{ModelInput}
use mod_sec_intl_wace_lib.ConfigStore.Defs.{is_async}
use mod_sec_intl_wace_lib.Tests.Data.{
  loaded_decisions, loaded_models, open_store, payload, store, strict, waf,
}
use mod_sec_intl_wace_lib.PluginManager.Tx.{AsyncState, AsyncTx, channel_at, in_range}
use mod_sec_intl_wace_lib.PluginManager.CheckResult.{check_loop}
use mod_sec_intl_wace_lib.PluginManager.Nats.{
  Messages, TransmissionResults, handle_model_input, handle_model_result,
}
use mod_sec_intl_wace_lib.PluginManager.AsyncTx.{
  Reach, System, add_channel, add_locked, adding, begin_add, here, load_or_store, next, start,
}
use mod_sec_intl_wace_lib.PluginManager.Loaded.{
  count_loaded, count_loaded-total, decisions_due, models_due, no_counts,
}
use mod_sec_intl_wace_lib.PluginManager.AsyncTxRuns.{
  Reach-SystemInv, SystemInv, add_locked-found, add_uncontended,
}
use mod_sec_intl_wace_lib.PluginManager.TxLaws.{StoreInv}
use mod_sec_intl_wace_lib.PluginManager.CheckLaws.{check_loop-verdict_of, verdict, verdict_of}
use mod_sec_intl_wace_lib.PluginManager.CheckLaws
use mod_sec_intl_wace_lib.PluginManager.NatsLaws.{
  IsAnswer, IsLost, handle_model_input-answers, handle_model_result-keeps, posted,
}

open_store-StoreInv : StoreInv open_store
unfolding lookup
open_store-StoreInv = record {
  allocated = λ id a f. ground (arith, =ₛ_iff "tx" id);
  separate = λ id j a f g. ground (arith, =ₛ_iff "tx" id, =ₛ_iff "tx" j);
}

check_loop-verdict_of_example :
    verdict (check_loop strict store loaded_decisions "tx" [] waf ("simple" ∷ []) false false)
    ≡ verdict_of strict store loaded_decisions "tx" [] waf
        (CheckLaws.production strict store loaded_decisions "tx" [] waf ("simple" ∷ []))
unfolding lookup
check_loop-verdict_of_example =
    check_loop-verdict_of strict store loaded_decisions "tx" [] waf ("simple" ∷ []) (refl, tt)

abbrev good_result : TransmissionResults
good_result = record { transaction_id = "tx"; prob_attack = 1; value = 7; error = "" }

handle_model_result-keeps_example :
    (handle_model_result (some store) "queued" (some good_result) open_store).sync_heap
    ≡ open_store.sync_heap
unfolding lookup is_async
handle_model_result-keeps_example =
    handle_model_result-keeps store "queued" good_result open_store (inl refl)

-- Every encoding is empty, and every publication is done.
abbrev wire : Messages
wire = record {
  encode_input = λ _. ok [];
  encode_results = λ _. ok [];
  publish = λ _ _. ok tt;
  error_text = λ _. "error";
}

abbrev one_input : ModelInput
one_input = record { transaction_id = "tx"; payload = payload; training = false }

handle_model_input-answers_example :
    let sent = handle_model_input wire strict (some store) "trivial" 3 (some one_input) in
    ((r : TransmissionResults) × (sent ≡ r ∷ [])
      × (posted wire "trivial" r ≡ ok tt)
      × (r.transaction_id ≡ "tx")
      × IsAnswer wire strict (some store) "trivial" 3 one_input r)
    ⊎ ((sent ≡ []) × IsLost wire strict (some store) "trivial" 3 one_input)
handle_model_input-answers_example =
    handle_model_input-answers wire strict (some store) "trivial" 3 one_input

count_loaded-total_example :
    let cm = models_due store loaded_models no_counts in
    let cd = decisions_due store loaded_decisions no_counts in
    (count_loaded (some store) loaded_models loaded_decisions ≡ some (cm, cd))
    × (cm.sync_count + cm.async_count + cm.remote_count + cm.training_count ≡ length loaded_models)
    × (cd.training_count + cd.production_count ≡ length loaded_decisions)
count_loaded-total_example = count_loaded-total store loaded_models loaded_decisions

-- A first call of AddModelChannel has found its asyncTx.
abbrev one_adding : System
one_adding = record {
  state = (load_or_store start.state "tx").0;
  calls = adding "tx" (pos 1) 5 (load_or_store start.state "tx").1 ∷ [];
}

one_adding-Reach : Reach start one_adding
unfolding in_range
one_adding-Reach = next here (begin_add "tx" (pos 1) 5 refl)

-- The state after its second step.
abbrev one_added : AsyncState
one_added = record {
  txs = ("tx", 0) ∷ [];
  heap =
      (record {
        channels = none ∷ some 5 ∷ none ∷ none ∷ none ∷ none ∷ none ∷ [];
        count = 1;
        removed = false;
      })
      ∷ [];
}

add_locked-found_example :
    (tx : AsyncTx) × (lookup "tx" one_added.txs ≡ some 0)
    × (get_elem? one_added.heap 0 ≡ some tx)
    × (channel_at tx.channels (pos 1) ≡ some 5)
    × (tx.removed ≡ false)
unfolding load_or_store add_locked add_channel lookup insert
add_locked-found_example =
    add_locked-found [] [] "tx" (pos 1) 5 0 one_added one_adding-Reach refl refl

Reach-SystemInv_example : SystemInv one_adding
Reach-SystemInv_example = Reach-SystemInv one_adding-Reach

add_uncontended_example :
    let (s, a) = load_or_store one_adding.state "tx" in
    (s' : AsyncState) × (tx : AsyncTx) × (add_locked s a (pos 2) 6 ≡ some s')
    × (lookup "tx" s'.txs ≡ some a)
    × (get_elem? s'.heap a ≡ some tx)
    × (channel_at tx.channels (pos 2) ≡ some 6)
    × (tx.removed ≡ false)
unfolding in_range
add_uncontended_example = add_uncontended "tx" (pos 2) 6 one_adding-Reach refl
