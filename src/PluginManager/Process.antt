-- ===== src/PluginManager/Process.antt =====
-- pluginmanager/pluginmanager.go and training_plugin.go, the call of a model plugin: pluginContext,
-- modelProcess, Process, ProcessTraining. What a loaded plugin answers is a parameter.
use mod_sec_intl_wace_lib.Base.{
  Error, List, Map, Option, Result, String, [], eqb_int, err, false, if◌then◌else◌,
  incompatible_type, lookup, ltb_int, model_is_async, model_not_found, none, ok, pos,
  results_not_found, some, true, ℕ, ◌∷◌,
}
use mod_sec_intl_wace_lib.WaceApi.{
  DecisionInput, DecisionResult, HttpPayload, ModelInput, ModelResults,
}
use mod_sec_intl_wace_lib.ConfigStore.PluginType.{ModelPluginType}
use mod_sec_intl_wace_lib.ConfigStore.Defs.{
  ConfigPointer, Duration, get, is_async, model_plugin_timeout,
}
use mod_sec_intl_wace_lib.PluginManager.Tx.{ModelStatus, Store, load_sync_tx, store_result}

-- A plugin instance, by a number that names it.
abbrev pub Handle : Type 0
Handle = ℕ

-- A context, by the timeouts that bound it.
abbrev pub Context : Type 0
Context = List Duration

-- The plugins, which are loaded from files: what `Process` and `CheckResults` of an instance return.
-- `Process` may return results beside an error.
pub record Plugins : Type 0 where
  pub run : Handle → Context → ModelInput → ModelResults × Option Error
  pub decide : Handle → Context → DecisionInput → Result DecisionResult

-- `modelPluginData`. The channel, the context and the cancel function of a training are set and
-- cleared together: `training` names them.
pub record ModelPluginData : Type 0 where
  pub plugin_type : ModelPluginType
  pub model_plugin : Handle
  pub training : Option ℕ
  pub process_handler : Option ℕ
  pub results_handler : Option ℕ

-- `decisionPluginData`
pub record DecisionPluginData : Type 0 where
  pub decision_plugin : Handle
  pub training : Option ℕ

-- A pair of results and an error, where the results count only without an error.
unfoldable pub to_result : ModelResults × Option Error → Result ModelResults
to_result (res, none) = ok res
to_result (res, some e) = err e

-- `pluginContext`
unfoldable pub plugin_context : Context → Duration → Context
unfolding ltb_int
plugin_context parent timeout = if ltb_int (pos 0) timeout then timeout ∷ parent else parent

module _ (plugins : Plugins) (config : ConfigPointer) where
  -- `modelProcess`
  unfoldable pub model_process :
      Context → String → ModelPluginData → ModelInput → ModelPluginType → Result ModelResults
  unfolding eqb_int to_result
  model_process ctx id mp input t =
      if eqb_int mp.plugin_type t
      then elim (get config) [
        | err e ↦ err e
        | ok conf ↦
            if is_async conf id
            then err model_is_async
            else to_result (
                plugins.run mp.model_plugin (plugin_context ctx (model_plugin_timeout conf id))
                  input)
      ]
      else err (incompatible_type mp.plugin_type t)

  abbrev failed_status : String → Error → ModelStatus
  failed_status id e = record { model_id = id; prob_attack = 0; error = some e }

  -- What Process does with a result: it is stored if the transaction is still there.
  unfoldable pub deliver : Store → String → String → Result ModelResults → Store × ModelStatus
  deliver s id tx_id (err e) = (s, failed_status id e)
  deliver s id tx_id (ok res) = elim (load_sync_tx s tx_id) [
    | none ↦ (s, failed_status id results_not_found)
    | some a ↦ (
      store_result s a id res,
      record { model_id = id; prob_attack = res.prob_attack; error = none },
    )
  ]

  -- `Process`: the state, and the one status that is sent on the channel.
  unfoldable pub process :
      Map ModelPluginData
      → Store
      → Context
      → String
      → String
      → HttpPayload
      → ModelPluginType
      → Store × ModelStatus
  process loaded s ctx id tx_id payload t = elim (lookup id loaded) [
    | none ↦ (s, failed_status id (model_not_found id))
    | some mp ↦ deliver s id tx_id (
        model_process ctx id mp
          (record { transaction_id = tx_id; payload = payload; training = false }) t)
  ]

  -- `ProcessTraining`: the training to which a sample is offered, and the sample. The context of the
  -- training carries no timeout.
  unfoldable pub process_training :
      Map ModelPluginData
      → String
      → String
      → HttpPayload
      → ModelPluginType
      → Option (ℕ × ModelResults)
  process_training loaded id tx_id payload t = elim (lookup id loaded) [
    | none ↦ none
    | some mp ↦ elim mp.training [
      | none ↦ none
      | some tr ↦
          elim (model_process [] id mp
            (record { transaction_id = tx_id; payload = payload; training = true }) t) [
              | err e ↦ none
              | ok res ↦ some (tr, res)
            ]
    ]
  ]
