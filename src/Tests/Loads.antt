-- ===== src/Tests/Loads.antt =====
-- The loading of plugins and the start of the core at concrete inputs.
use mod_sec_intl_wace_lib.Base.{
  All, Error, Option, [], err, external, if◌then◌else◌, insert, lookup, none, not, ok, refl, some,
  true, ℕ, ◌&&◌, ◌+◌, ◌==◌, ◌∷◌, ◌≡◌, ◌≢◌, ◌⊎◌,
}
use mod_sec_intl_wace_lib.ConfigStore.Defs.{ConfigStore, get, is_async, is_in_training, is_remote}
use mod_sec_intl_wace_lib.ConfigStore.Check.{check_config, check_decision, check_model}
use mod_sec_intl_wace_lib.ConfigStore.PluginType.{string_to_plugin_type}
use mod_sec_intl_wace_lib.ConfigStore.SetConfig.{
  decision_config, decision_configs, default_interval, model_config, model_configs, new_store,
  or_default, set_config,
}
use mod_sec_intl_wace_lib.Tests.Data.{
  anywhere, bad_file, config_of, file, loaded_models, store, trivial_file,
}
use mod_sec_intl_wace_lib.PluginManager.Process.{ModelPluginData}
use mod_sec_intl_wace_lib.PluginManager.Loading.World.{Env, instance_of, make, open_plugin}
use mod_sec_intl_wace_lib.PluginManager.Loading.Models.{
  Models, is_configured, load_model_plugins, load_models_loop, load_round, new_model, values,
}
use mod_sec_intl_wace_lib.PluginManager.Loading.Manager.{
  Manager, fill_manager, new_manager, register_metrics, reload_manager,
}
use mod_sec_intl_wace_lib.PluginManager.Loading.Stop.{
  NatsHandler, await_loop, close_conn, closed, drain_loop, drained, draining, flushed, not_draining,
  stop, watched,
}
use mod_sec_intl_wace_lib.PluginManager.Loading.StopLaws.{
  all_drain, drained_to, ended, follow, has_error, is_flushed, stop-drains, times, unseen,
}
use mod_sec_intl_wace_lib.PluginManager.Loading.Ledger.{IsOrderly, acquired_count, released_count}
use mod_sec_intl_wace_lib.PluginManager.Loading.ManagerLaws.{
  Managed, Managed-IsOrderly, Managed-owned, after_reload, created, first_world, owned,
}
use mod_sec_intl_wace_lib.PluginManager.Loading.Configured.{instance_at, load_model_plugins-stays}
use mod_sec_intl_wace_lib.Core.Metrics.{CoreMetrics, new_core_metrics}
use mod_sec_intl_wace_lib.Core.Lifecycle.{
  Core, Host, call_all, create_manager, create_stored, init, init_call, reload, reload_call,
  returned, store_config,
}
use mod_sec_intl_wace_lib.Core.LifecycleLaws.{Replaces, pair-eq, reload-Replaces}
use mod_sec_intl_wace_lib.Core.LifecycleInvariant.{CoreInv, call_all-CoreInv, first_core}
use mod_sec_intl_wace_lib.Core.Stuck.{IsStuck, stuck_for_good}

-- Everything that is called succeeds.
abbrev pub willing : Env
willing = record {
  open_file = λ kind id path. ok 0;
  find_constructor = λ kind id file. ok 0;
  is_constructor = λ kind id f. true;
  construct = λ kind id f params. ok true;
  reload = λ kind id i params. none;
  connect = λ id url. ok tt;
  queue_subscribe = λ id k. ok tt;
  flush_inputs = λ id. ok tt;
  subscribe_results = λ id. ok tt;
  flush_results = λ id. ok tt;
  make_gauge = ok tt;
  register_callback = ok tt;
  connect_manager = λ url. ok tt;
}

-- The async plugin is no longer configured.
abbrev smaller : ConfigStore
smaller = record store { model_plugins = ("trivial", config_of trivial_file) ∷ [] }

abbrev pub started_manager : Manager
started_manager = (new_manager willing 2 (some store) first_world).0

started_manager-runs : (new_manager willing 2 (some store) first_world).1 ≡ none
unfolding new_manager get fill_manager register_metrics
started_manager-runs = refl

pub started_manager-Managed : Managed started_manager
started_manager-Managed =
    created willing 2 (some store) started_manager (pair-eq refl started_manager-runs)

-- Behind the reload the async plugin, which was the second, has been stopped and cleaned.
abbrev reloaded_manager : Manager
reloaded_manager = (reload_manager willing 2 (some smaller) started_manager).0

Managed-IsOrderly_example : IsOrderly reloaded_manager.world.log
Managed-IsOrderly_example =
    Managed-IsOrderly (after_reload willing 2 (some smaller) started_manager-Managed)

Managed-owned_example :
    acquired_count (instance_of 1) reloaded_manager.world.log
    ≡ released_count (instance_of 1) reloaded_manager.world.log
      + owned reloaded_manager (instance_of 1)
Managed-owned_example =
    Managed-owned (instance_of 1) (after_reload willing 2 (some smaller) started_manager-Managed)

abbrev some_loaded : Models
some_loaded = record { world = first_world; plugins = loaded_models }

some_loaded-trivial : instance_at "trivial" some_loaded ≡ some 3
unfolding instance_at lookup
some_loaded-trivial = refl

load_model_plugins-stays_example :
    instance_at "trivial" (load_model_plugins willing 2 (some smaller) some_loaded).0
    ≡ (if is_configured smaller "trivial" then some 3 else none)
load_model_plugins-stays_example =
    load_model_plugins-stays willing 2 smaller some_loaded "trivial" 3 some_loaded-trivial

abbrev fresh_plugin : ModelPluginData
fresh_plugin = new_model (config_of trivial_file) 0

fresh_plugin-found :
    lookup "trivial"
      (load_model_plugins willing 2
        (some smaller)
        (record { world = first_world; plugins = [] })).0.plugins
    ≡ some fresh_plugin
unfolding load_model_plugins get load_models_loop values load_round lookup open_plugin is_async
    is_remote insert is_configured is_in_training make
fresh_plugin-found = refl

abbrev pub host : Host
host = record {
  exists = anywhere;
  make_instrument = λ mp name. (1, none);
  default_logger = 0;
  env = willing;
  workers = 2;
}

abbrev no_instruments : CoreMetrics
no_instruments = record {
  model_duration = 0;
  attack_prob = 0;
  model_errors = 0;
  model_timeouts = 0;
  tx_checked = 0;
}

call_all-CoreInv_example :
    CoreInv
      (call_all
        (init_call host none file none ∷ reload_call host (some 4) bad_file none ∷ [])
        (first_core no_instruments 0)).0
call_all-CoreInv_example =
    call_all-CoreInv (init_call host none file none ∷ reload_call host (some 4) bad_file none ∷ [])
      no_instruments 0

abbrev pub served_core : Core
served_core = record {
  config = some store;
  metrics = no_instruments;
  logger = 0;
  manager = some started_manager;
  world = first_world;
}

reload-Replaces_example :
    let o = reload host (some 4) file none served_core in
    ((e : Error) × (o ≡ (served_core, returned (some e))))
    ⊎ ((current : ConfigStore) × (served_core.config ≡ some current)
        × (file.nats_url ≡ current.nats_url)
        × Replaces host (some 4) file none served_core o)
reload-Replaces_example = reload-Replaces host (some 4) file none served_core

-- No callback of the metrics can be registered.
abbrev unwilling : Host
unwilling = record host {
  env = record willing { register_callback = err (external "no callback") };
}

abbrev stuck_core : Core
stuck_core = (init unwilling none file none (first_core no_instruments 0)).0

stuck_core-known : (stuck_core.config ≡ some store) × (stuck_core.manager ≡ none)
unfolding init get store_config set_config check_config check_model check_decision model_configs
    model_config string_to_plugin_type new_store insert decision_configs or_default default_interval
    decision_config create_stored create_manager new_manager fill_manager register_metrics
    new_core_metrics
stuck_core-known = (refl, refl)

stuck_core-IsStuck : IsStuck stuck_core
stuck_core-IsStuck = let (stored, missing) = stuck_core-known in (λ e. cc (e, stored), missing)

stuck_for_good_example :
    All
      (λ a. a ≢ returned none)
      (call_all (init_call host none file none ∷ reload_call host none file none ∷ []) stuck_core).1
stuck_for_good_example =
    stuck_for_good (init_call host none file none ∷ reload_call host none file none ∷ []) stuck_core
      stuck_core-IsStuck

-- NATS refuses the drain of the second subscription.
abbrev refuses_second : ℕ → Option Error
refuses_second s = if s == 1 then some (external "no drain") else none

abbrev two_subs : NatsHandler
two_subs = record { subs = 0 ∷ 1 ∷ []; conn = some 7 }

two_subs-once : times 0 two_subs.subs ≡ 1
unfolding times
two_subs-once = refl

stop-drains_example :
    (follow 0 (stop refuses_second none two_subs).0 unseen
      ≡ some (drained_to (refuses_second 0) ended))
    × (has_error (stop refuses_second none two_subs).1
        ≡ not (all_drain refuses_second two_subs.subs && is_flushed none two_subs.conn))
stop-drains_example = stop-drains refuses_second none two_subs 0 two_subs-once

two_subs-closed_last :
    (stop refuses_second none two_subs).0
    ≡ watched 0 ∷ draining 0 ∷ watched 1 ∷ not_draining 1 ∷ drained 0 ∷ flushed 7 ∷ closed 7 ∷ []
unfolding stop drain_loop await_loop close_conn
two_subs-closed_last = refl
