-- ===== src/PluginManager/Nats.antt =====
-- pluginmanager/pluginmanager.go, the messages of the async and remote model plugins: EncodeModelInput
-- and publishResults, handleModelInput, handleModelResult.
use mod_sec_intl_wace_lib.Base.{
  Bool, Error, List, Option, Result, String, [], cannot_send, err, external, false, if◌then◌else◌,
  lookup, none, ok, pos, some, true, ℕ, ◌=ₛ◌, ◌>>=◌, ◌∷◌,
}
use Prim.Native.String
use mod_sec_intl_wace_lib.WaceApi.{Any, Bytes, HttpPayload, ModelInput, ModelResults}
use mod_sec_intl_wace_lib.ConfigStore.PluginType.{ModelPluginType}
use mod_sec_intl_wace_lib.ConfigStore.Defs.{
  ConfigPointer, Duration, Float64, is_async, model_plugin_timeout,
}
use mod_sec_intl_wace_lib.PluginManager.Tx.{
  Store, async_channel, load_async_tx, load_sync_tx, notify_status, store_result, sync_channel,
}
use mod_sec_intl_wace_lib.PluginManager.Process.{Handle, Plugins, plugin_context}

-- `ModelTransmitionResults`; no error is the empty text.
pub record TransmissionResults : Type 0 where
  pub transaction_id : String
  pub prob_attack : Float64
  pub value : Any
  pub error : String

-- The JSON encoder and the NATS connection: an encoding may fail, and so may a publication, to a
-- subject, of a text.
pub record Messages : Type 0 where
  pub encode_input : ModelInput → Result Bytes
  pub encode_results : TransmissionResults → Result Bytes
  pub publish : String → Bytes → Result (Unit {0})
  pub error_text : Error → String

-- `EncodeModelInput`
unfoldable pub encode_model_input : Messages → String → HttpPayload → Result Bytes
encode_model_input m tx_id payload =
    m.encode_input (record { transaction_id = tx_id; payload = payload; training = false })

-- `modelId+"/results"`
unfoldable pub results_subject : String → String
results_subject id = String.◌++◌ id "/results"

-- `publishResults`
unfoldable pub publish_results : Messages → String → TransmissionResults → Result (Unit {0})
unfolding results_subject
publish_results m id r = do text ← m.encode_results r; m.publish (results_subject id) text

-- The answer to an input: the results, with the text of the error if the plugin failed.
unfoldable pub answer : Messages → String → ModelResults × Option Error → TransmissionResults
answer m tx_id (res, none) = record {
  transaction_id = tx_id;
  prob_attack = res.prob_attack;
  value = res.value;
  error = "";
}
answer m tx_id (res, some e) = record {
  transaction_id = tx_id;
  prob_attack = res.prob_attack;
  value = res.value;
  error = m.error_text e;
}

-- The answer when the results cannot be sent.
unfoldable pub error_answer : Messages → String → Error → TransmissionResults
error_answer m tx_id e = record {
  transaction_id = tx_id;
  prob_attack = 0;
  value = 0;
  error = m.error_text (cannot_send e);
}

-- The timeout of a model plugin, or none without a configuration.
unfoldable pub input_timeout : ConfigPointer → String → Duration
input_timeout none id = pos 0
input_timeout (some cs) id = model_plugin_timeout cs id

-- `handleModelInput`: what is sent. A message that cannot be parsed is dropped.
unfoldable pub handle_model_input :
    Messages
    → Plugins
    → ConfigPointer
    → String
    → Handle
    → Option ModelInput
    → List TransmissionResults
unfolding input_timeout
handle_model_input m plugins config id plugin none = []
handle_model_input m plugins config id plugin (some input) =
    let res = plugins.run plugin (plugin_context [] (input_timeout config id)) input in
    let first = answer m input.transaction_id res in
    elim (publish_results m id first) [
      | ok _ ↦ first ∷ []
      | err e ↦
          let second = error_answer m input.transaction_id e in
          elim (publish_results m id second) [ ok _ ↦ second ∷ [] | err _ ↦ [] ]
    ]

-- The channel that waits for a result, with the syncTx of a sync plugin; `none` where there is no
-- transaction or no channel.
unfoldable pub waiting_channel : Store → String → ModelPluginType → Bool → Option (ℕ × Option ℕ)
waiting_channel s tx_id t true = elim (load_async_tx s tx_id) [
  | none ↦ none
  | some a ↦ elim (async_channel s a t) [ none ↦ none | some c ↦ some (c, none) ]
]
waiting_channel s tx_id t false = elim (load_sync_tx s tx_id) [
  | none ↦ none
  | some a ↦ elim (sync_channel s a t) [ none ↦ none | some c ↦ some (c, some a) ]
]

-- The result of a sync plugin is stored.
unfoldable pub keep_result : Store → String → TransmissionResults → Option ℕ → Store
keep_result s id r none = s
keep_result s id r (some a) =
    store_result s a id (record { prob_attack = r.prob_attack; value = r.value })

-- What happens to a result whose channel is found.
unfoldable pub accept_result : Store → String → TransmissionResults → ℕ × Option ℕ → Store
accept_result s id r (c, tx) =
    if r.error =ₛ ""
    then notify_status (keep_result s id r tx) c
        (record { model_id = id; prob_attack = r.prob_attack; error = none })
    else notify_status s c
        (record { model_id = id; prob_attack = 0; error = some (external r.error) })

-- `handleModelResult`, for a message that was parsed or not.
unfoldable pub handle_model_result :
    ConfigPointer → String → Option TransmissionResults → Store → Store
handle_model_result config id none s = s
handle_model_result none id (some r) s = s
handle_model_result (some cs) id (some r) s = elim (lookup id cs.model_plugins) [
  | none ↦ s
  | some conf ↦ elim (waiting_channel s r.transaction_id conf.plugin_type (is_async cs id)) [
    | none ↦ s
    | some target ↦ accept_result s id r target
  ]
]
