-- ===== src/Tests/Reloads.antt =====
-- Reloads of the core and of its plugin manager.
use mod_sec_intl_wace_lib.Base.{[], none, refl, some, some-injective, subst, ◌+◌, ◌≡◌}
use mod_sec_intl_wace_lib.ConfigStore.Defs.{ConfigStore, get}
use mod_sec_intl_wace_lib.PluginManager.Loading.World.{Resource, callback_of}
use mod_sec_intl_wace_lib.PluginManager.Loading.Manager.{
  Manager, load_decisions, load_models, register_metrics, reload_manager,
}
use mod_sec_intl_wace_lib.PluginManager.Loading.Ledger.{acquired_count, released_count}
use mod_sec_intl_wace_lib.PluginManager.Loading.HandlersLaws.{held}
use mod_sec_intl_wace_lib.PluginManager.Loading.Keyed.{IsStored}
use mod_sec_intl_wace_lib.PluginManager.Loading.DrainLaws.{reload_manager-held}
use mod_sec_intl_wace_lib.PluginManager.Loading.ManagerLaws.{Managed}
use mod_sec_intl_wace_lib.Core.Lifecycle.{Core, reload, returned}
use mod_sec_intl_wace_lib.Core.LifecycleLaws.{pair-eq}
use mod_sec_intl_wace_lib.Core.ReloadLaws.{DecisionsFollow, ModelsFollow, reload-ModelsFollow}
use mod_sec_intl_wace_lib.Tests.Data.{file, store}
use mod_sec_intl_wace_lib.Tests.Loads.{
  host, served_core, started_manager, started_manager-Managed, willing,
}
use mod_sec_intl_wace_lib.ConfigStore.SetConfig.{model_config, model_configs, set_config}
use mod_sec_intl_wace_lib.ConfigStore.Check.{check_config, check_decision, check_model}
use mod_sec_intl_wace_lib.PluginManager.Loading.Decisions.{load_decision_plugins}
use mod_sec_intl_wace_lib.ConfigStore.PluginType.{string_to_plugin_type}
use mod_sec_intl_wace_lib.Core.Metrics.{new_core_metrics}
use mod_sec_intl_wace_lib.PluginManager.Loading.Models.{load_model_plugins}

-- Nothing is configured any more.
abbrev nothing_left : ConfigStore
nothing_left = record store { model_plugins = []; decision_plugins = [] }

abbrev drained_manager : Manager
drained_manager = (reload_manager willing 2 (some nothing_left) started_manager).0

reload_manager-held_example :
    (drained_manager.models ≡ [])
    × (drained_manager.decisions ≡ [])
    × ((r : Resource)
        → acquired_count r drained_manager.world.log
          ≡ released_count r drained_manager.world.log
            + held r callback_of drained_manager.metrics_reg)
reload_manager-held_example =
    reload_manager-held willing 2 nothing_left started_manager-Managed refl refl

-- The same file again, with another logger.
abbrev reloaded_core : Core
reloaded_core = (reload host none file (some 4) served_core).0

reloaded_core-returned : (reload host none file (some 4) served_core).1 ≡ returned none
unfolding reload get new_core_metrics set_config check_config check_model check_decision
    model_configs model_config string_to_plugin_type reload_manager load_models load_model_plugins
    load_decisions load_decision_plugins register_metrics
reloaded_core-returned = refl

reload-ModelsFollow_example :
    (cs : ConfigStore) × (p : Manager) × (p' : Manager) × (reloaded_core.config ≡ some cs)
    × IsStored cs
    × (served_core.manager ≡ some p)
    × (reloaded_core.manager ≡ some p')
    × ModelsFollow cs p p'
    × DecisionsFollow cs p p'
reload-ModelsFollow_example =
    reload-ModelsFollow host none file (some 4) served_core reloaded_core (λ kind id i params. refl)
      (λ p there. subst Managed (some-injective started_manager p there) started_manager-Managed)
      (pair-eq refl reloaded_core-returned)
