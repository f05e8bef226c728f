-- ===== src/PluginManager/Loading/Handlers.antt =====
-- pluginmanager/pluginmanager.go, the NATS handlers of a model plugin: ModelProcessHandler,
-- ModelResultsHandler, NatsHandler.Stop, startHandlers and stopHandlers.
use mod_sec_intl_wace_lib.Base.{Result, String, err, none, ok, some, suc, zero, ℕ, ◌>>◌}
use mod_sec_intl_wace_lib.ConfigStore.Defs.{ConfigPointer, get}
use mod_sec_intl_wace_lib.PluginManager.Process.{Handle, ModelPluginData}
use mod_sec_intl_wace_lib.PluginManager.Loading.World.{
  Env, World, give_back, give_back?, handler_of, inputs, make, results,
}

module _ (env : Env) (workers : ℕ) (config : ConfigPointer) where
  -- The subscriptions of the loop `for range processWorkers`, from the number `k` on.
  unfoldable pub queue_subscribe_all : String → ℕ → ℕ → Result (Unit {0})
  queue_subscribe_all id zero k = ok tt
  queue_subscribe_all id (suc left) k = do
    env.queue_subscribe id k
    queue_subscribe_all id left (suc k)

  -- `ModelProcessHandler` for the instance `i`: its connection is closed on an error, with all
  -- subscriptions that it has.
  unfoldable pub model_process_handler : String → Handle → World → World × Result ℕ
  model_process_handler id i w = elim (get config) [
    | err e ↦ (w, err e)
    | ok cs ↦ elim (env.connect id cs.nats_url) [
      | err e ↦ (w, err e)
      | ok _ ↦
          let (w', h) = make (handler_of inputs i) w in
          elim (queue_subscribe_all id workers 0 >> env.flush_inputs id) [
            | err e ↦ (give_back (handler_of inputs i h) w', err e)
            | ok _ ↦ (w', ok h)
          ]
    ]
  ]

  -- `ModelResultsHandler`: a subscription on the connection of the plugin manager.
  unfoldable pub model_results_handler : String → Handle → World → World × Result ℕ
  model_results_handler id i w = elim (env.subscribe_results id) [
    | err e ↦ (w, err e)
    | ok _ ↦
        let (w', h) = make (handler_of results i) w in
        elim (env.flush_results id) [
          | err e ↦ (give_back (handler_of results i h) w', err e)
          | ok _ ↦ (w', ok h)
        ]
  ]

  -- `startHandlers` behind its second call: on an error the first handler is stopped.
  unfoldable pub with_results :
      ModelPluginData → ℕ → World × Result ℕ → World × Result ModelPluginData
  with_results mp ph (w, err e) = (give_back (handler_of inputs mp.model_plugin ph) w, err e)
  with_results mp ph (w, ok rh) =
      (w, ok (record mp { process_handler = some ph; results_handler = some rh }))

  -- `startHandlers` behind its first call.
  unfoldable pub with_inputs :
      String → ModelPluginData → World × Result ℕ → World × Result ModelPluginData
  unfolding model_results_handler with_results
  with_inputs id mp (w, err e) = (w, err e)
  with_inputs id mp (w, ok ph) = with_results mp ph (model_results_handler id mp.model_plugin w)

  -- `startHandlers`: the plugin with both handlers, or the error.
  unfoldable pub start_handlers : String → ModelPluginData → World → World × Result ModelPluginData
  unfolding model_process_handler with_inputs
  start_handlers id mp w = with_inputs id mp (model_process_handler id mp.model_plugin w)

-- `stopHandlers`: the plugin without handlers. That one cannot be stopped cleanly is only logged.
unfoldable pub stop_handlers : ModelPluginData → World → World × ModelPluginData
stop_handlers mp w = (
  give_back? (handler_of results mp.model_plugin) mp.results_handler
      (give_back? (handler_of inputs mp.model_plugin) mp.process_handler w),
  record mp { process_handler = none; results_handler = none },
)
