-- ===== src/PluginManager/NatsLaws.antt =====
-- pluginmanager/pluginmanager.go, the effects of handleModelInput and handleModelResult.
use mod_sec_intl_wace_lib.Base.{
  =ₛ_iff, Bool-cases, Error, Option, Option-cases, Result, Result-cases, String, [], ap, arith,
  cannot_send, err, external, false, if◌then◌else◌, inl, inr, lookup, none, ok, refl, some, true, ℕ,
  ◌&&◌, ◌==◌, ◌=ₛ◌, ◌∷◌, ◌≡◌, ◌≢◌, ◌⊎◌,
}
use Prim.Native.String
use mod_sec_intl_wace_lib.WaceApi.{ModelInput, ModelResults}
use mod_sec_intl_wace_lib.ConfigStore.PluginType.{ModelPluginType}
use mod_sec_intl_wace_lib.ConfigStore.Defs.{ConfigPointer, ConfigStore, ModelPluginConfig, is_async}
use mod_sec_intl_wace_lib.PluginManager.Tx.{
  ModelStatus, Store, load_sync_tx, notify_status, sync_channel,
}
use mod_sec_intl_wace_lib.PluginManager.TxLaws.{
  StoreInv, lookup-store_result, notify_status-sync_heap,
}
use mod_sec_intl_wace_lib.PluginManager.CheckResult.{tx_results}
use mod_sec_intl_wace_lib.PluginManager.Process.{Handle, Plugins, plugin_context}
use mod_sec_intl_wace_lib.PluginManager.Nats.{
  Messages, TransmissionResults, accept_result, answer, error_answer, handle_model_input,
  handle_model_result, input_timeout, keep_result, publish_results, results_subject,
  waiting_channel,
}

-- What is due for an input: what the plugin returned, with the text of its error, and the report of a
-- failure to send that.
unfoldable pub report_of : Messages → String → ModelResults × Option Error → TransmissionResults
report_of m tx_id (res, e) = record {
  transaction_id = tx_id;
  prob_attack = res.prob_attack;
  value = res.value;
  error = elim e [ none ↦ "" | some x ↦ m.error_text x ];
}

unfoldable pub failure_of : Messages → String → Error → TransmissionResults
failure_of m tx_id e = record {
  transaction_id = tx_id;
  prob_attack = 0;
  value = 0;
  error = m.error_text (cannot_send e);
}

pub answer-report_of :
    (m : Messages) (tx_id : String) (res : ModelResults × Option Error)
    → answer m tx_id res ≡ report_of m tx_id res
unfolding answer report_of
answer-report_of m tx_id (res, none) = refl
answer-report_of m tx_id (res, some e) = refl

pub error_answer-failure_of :
    (m : Messages) (tx_id : String) (e : Error) → error_answer m tx_id e ≡ failure_of m tx_id e
unfolding error_answer failure_of
error_answer-failure_of m tx_id e = refl

-- A report on the results queue of a model plugin.
unfoldable pub posted : Messages → String → TransmissionResults → Result (Unit {0})
posted m id r = elim (m.encode_results r) [
  | err e ↦ err e
  | ok text ↦ m.publish (String.◌++◌ id "/results") text
]

publish_results-posted :
    (m : Messages) (id : String) (r : TransmissionResults) → publish_results m id r ≡ posted m id r
unfolding publish_results results_subject posted
publish_results-posted m id r = ground arith

-- What the plugin returns for an input.
abbrev pub returned_by :
    Plugins → ConfigPointer → String → Handle → ModelInput → ModelResults × Option Error
returned_by plugins config id plugin input =
    plugins.run plugin (plugin_context [] (input_timeout config id)) input

-- The report of what the plugin returned, which has been sent, or else the report of the failure to
-- send that one.
abbrev pub IsAnswer :
    Messages → Plugins → ConfigPointer → String → Handle → ModelInput → TransmissionResults → Type 0
IsAnswer m plugins config id plugin input r =
    let first = report_of m input.transaction_id (returned_by plugins config id plugin input) in
    ((posted m id first ≡ ok tt) × (r ≡ first))
    ⊎ ((e : Error) × (posted m id first ≡ err e) × (r ≡ failure_of m input.transaction_id e))

-- Neither of the two can be sent.
abbrev pub IsLost : Messages → Plugins → ConfigPointer → String → Handle → ModelInput → Type 0
IsLost m plugins config id plugin input =
    let first = report_of m input.transaction_id (returned_by plugins config id plugin input) in
    (e : Error) × (e' : Error) × (posted m id first ≡ err e)
    × (posted m id (failure_of m input.transaction_id e) ≡ err e')

pub answer-id :
    (m : Messages) (tx_id : String) (r : ModelResults × Option Error)
    → (answer m tx_id r).transaction_id ≡ tx_id
unfolding answer
answer-id m tx_id (res, none) = refl
answer-id m tx_id (res, some e) = refl

-- An input that is parsed gets one answer at most, which is published on the results queue of the
-- model and is for its own transaction: what the plugin has returned, with the text of its error if
-- it has failed, when that can be published, and else the report of the failure to publish it, with
-- the text of that. It gets none only when neither of the two can be published.
pub handle_model_input-answers :
    (m : Messages) (plugins : Plugins) (config : ConfigPointer) (id : String) (plugin : Handle)
    (input : ModelInput)
    → let sent = handle_model_input m plugins config id plugin (some input) in
      ((r : TransmissionResults) × (sent ≡ r ∷ [])
        × (posted m id r ≡ ok tt)
        × (r.transaction_id ≡ input.transaction_id)
        × IsAnswer m plugins config id plugin input r)
      ⊎ ((sent ≡ []) × IsLost m plugins config id plugin input)
unfolding handle_model_input report_of failure_of
handle_model_input-answers m plugins config id plugin input =
    let res = returned_by plugins config id plugin input in
    let first = report_of m input.transaction_id res in
    elim (Result-cases (posted m id first)) [
      | inr (tt, sent) ↦ inl (
        first,
        rw (answer-report_of, handle_model_input)
            (rw (publish_results-posted m id first, sent)
              (ap (λ x. x ∷ []) (answer-report_of m input.transaction_id res))),
        sent,
        refl,
        inl (sent, refl),
      )
      | inl (e, lost) ↦
          let second = failure_of m input.transaction_id e in
          elim (Result-cases (posted m id second)) [
            | inr (tt, sent) ↦ inl (
              second,
              rw (answer-report_of, handle_model_input)
                  (rw (publish_results-posted m id first, lost, error_answer-failure_of)
                    (rw (publish_results-posted m id second, sent)
                      (ap (λ x. x ∷ []) (error_answer-failure_of m input.transaction_id e)))),
              sent,
              refl,
              inr (e, lost, refl),
            )
            | inl (e', lost') ↦ inr (
              rw (answer-report_of, handle_model_input)
                  (rw (publish_results-posted m id first, lost, error_answer-failure_of)
                    (rw (publish_results-posted m id second, lost'))),
              (e, e', lost, lost'),
            )
          ]
    ]

tx_results-notify_status :
    (s : Store) (c : ℕ) (status : ModelStatus) (b : ℕ)
    → tx_results (notify_status s c status) b ≡ tx_results s b
unfolding tx_results
tx_results-notify_status s c status b = rw (notify_status-sync_heap s c status)

pub accept_result-fine :
    (s : Store) (id : String) (r : TransmissionResults) (c : ℕ) (tx : Option ℕ)
    → (r.error =ₛ "") ≡ true
    → accept_result s id r (c, tx)
      ≡ notify_status
          (keep_result s id r tx)
          c
          (record { model_id = id; prob_attack = r.prob_attack; error = none })
unfolding accept_result
accept_result-fine s id r c tx h = rw h

pub accept_result-failed :
    (s : Store) (id : String) (r : TransmissionResults) (c : ℕ) (tx : Option ℕ)
    → (r.error =ₛ "") ≡ false
    → accept_result s id r (c, tx)
      ≡ notify_status s c
          (record { model_id = id; prob_attack = 0; error = some (external r.error) })
unfolding accept_result
accept_result-failed s id r c tx h = rw h

accept_result-keeps :
    (s : Store) (id : String) (r : TransmissionResults) (c : ℕ) (tx : Option ℕ)
    → (tx ≡ none) ⊎ (r.error ≢ "")
    → (accept_result s id r (c, tx)).sync_heap ≡ s.sync_heap
unfolding keep_result
accept_result-keeps s id r c tx h = elim (Bool-cases (r.error =ₛ "")) [
  | inr failed ↦ rw (accept_result-failed s id r c tx failed) (notify_status-sync_heap s c _)
  | inl fine ↦ elim h [
    | inr bad ↦ absurd (bad ((=ₛ_iff r.error "").0 fine))
    | inl nothing ↦
        rw (accept_result-fine s id r c tx fine, nothing) (notify_status-sync_heap s c _)
  ]
]

-- Only a sync plugin has a transaction to store in.
waiting_channel-async :
    (s : Store) (tx_id : String) (t : ModelPluginType) (c : ℕ) (tx : Option ℕ)
    → waiting_channel s tx_id t true ≡ some (c, tx)
    → tx ≡ none
unfolding waiting_channel
waiting_channel-async s tx_id t c tx h = ground arith

pub waiting_channel-sync :
    (s : Store) (tx_id : String) (t : ModelPluginType) (a c : ℕ)
    → load_sync_tx s tx_id ≡ some a
    → sync_channel s a t ≡ some c
    → waiting_channel s tx_id t false ≡ some (c, some a)
unfolding waiting_channel
waiting_channel-sync s tx_id t a c at chan = rw (at, waiting_channel) (rw chan)

waiting-keeps :
    (cs : ConfigStore) (id : String) (r : TransmissionResults) (s : Store) (c : ℕ) (tx : Option ℕ)
    (t : ModelPluginType)
    → (is_async cs id ≡ true) ⊎ (r.error ≢ "")
    → waiting_channel s r.transaction_id t (is_async cs id) ≡ some (c, tx)
    → (tx ≡ none) ⊎ (r.error ≢ "")
waiting-keeps cs id r s c tx t (inr bad) w = inr bad
waiting-keeps cs id r s c tx t (inl async) w =
    inl (waiting_channel-async s r.transaction_id t c tx (rw async at w))

-- A result of an async model plugin, and a result that reports an error, change no result on which
-- a decision is made.
pub handle_model_result-keeps :
    (cs : ConfigStore) (id : String) (r : TransmissionResults) (s : Store)
    → (is_async cs id ≡ true) ⊎ (r.error ≢ "")
    → (handle_model_result (some cs) id (some r) s).sync_heap ≡ s.sync_heap
unfolding handle_model_result
handle_model_result-keeps cs id r s h = elim (Option-cases (lookup id cs.model_plugins)) [
  | inl e ↦ rw (e, handle_model_result)
  | inr (conf, e) ↦
      rw (e, handle_model_result)
        (elim (Option-cases
          (waiting_channel s r.transaction_id conf.plugin_type (is_async cs id))) [
            | inl w ↦ rw w
            | inr ((c, tx), w) ↦ rw w (
                accept_result-keeps s id r c tx (waiting-keeps cs id r s c tx conf.plugin_type h w))
          ])
]

-- A result without an error, of a sync plugin whose transaction waits for it, is stored under the
-- model in that transaction, and no other result of any transaction changes.
pub lookup-handle_model_result :
    (cs : ConfigStore) (conf : ModelPluginConfig) (id other : String) (r : TransmissionResults)
    (s : Store) (a b c : ℕ)
    → StoreInv s
    → lookup id cs.model_plugins ≡ some conf
    → is_async cs id ≡ false
    → r.error ≡ ""
    → load_sync_tx s r.transaction_id ≡ some a
    → sync_channel s a conf.plugin_type ≡ some c
    → lookup other (tx_results (handle_model_result (some cs) id (some r) s) b) ≡ (
        if a == b && id =ₛ other
        then some (record { prob_attack = r.prob_attack; value = r.value })
        else lookup other (tx_results s b))
unfolding handle_model_result keep_result load_sync_tx
lookup-handle_model_result cs conf id other r s a b c inv found local fine at chan =
    let res : ModelResults = record { prob_attack = r.prob_attack; value = r.value } in
    rw (found, handle_model_result)
      (rw (local, waiting_channel-sync s r.transaction_id conf.plugin_type a c at chan)
        (rw
          (
            accept_result-fine s id r c (some a) ((=ₛ_iff r.error "").1 fine),
            tx_results-notify_status,
          )
          (lookup-store_result s a b id other res (inv.allocated r.transaction_id a at))))
