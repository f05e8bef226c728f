-- ===== src/PluginManager/Loading/Decisions.antt =====
-- pluginmanager/pluginmanager.go, loadDecisionPlugins.
use mod_sec_intl_wace_lib.Base.{
  Bool, Error, List, Map, Option, String, [], erase, err, false, if◌then◌else◌, insert, lookup,
  none, not, ok, some, true, ◌&&◌, ◌∷◌,
}
use mod_sec_intl_wace_lib.ConfigStore.Defs.{
  ConfigPointer, ConfigStore, DecisionPluginConfig, get, is_decision_in_training,
}
use mod_sec_intl_wace_lib.Training.Status.{decision_kind}
use mod_sec_intl_wace_lib.PluginManager.Process.{DecisionPluginData}
use mod_sec_intl_wace_lib.PluginManager.Loading.World.{
  Env, emit, give_back, give_back?, instance_of, make, open_plugin, reloaded, start_training,
  training_of,
}
use mod_sec_intl_wace_lib.PluginManager.Loading.Models.{Loaded, is_set, values}

abbrev pub Decisions : Type 0
Decisions = Loaded DecisionPluginData

module _ (env : Env) (conf : ConfigStore) where
  -- One round of the first loop for a plugin that is not loaded.
  unfoldable pub load_decision : DecisionPluginConfig → Decisions → Decisions
  unfolding start_training
  load_decision d s = elim (open_plugin env decision_kind d.id d.path d.params) [
    | err e ↦ s
    | ok _ ↦
        let (w, i) = make instance_of s.world in
        let (w', t) = start_training w in
        if is_decision_in_training conf d.id
        then record {
          world = w';
          plugins = insert d.id (record { decision_plugin = i; training = some t }) s.plugins;
        }
        else record {
          world = w;
          plugins = insert d.id (record { decision_plugin = i; training = none }) s.plugins;
        }
  ]

  -- What is done with a plugin that has taken its new configuration.
  unfoldable pub adapt_decision : String → DecisionPluginData → Decisions → Decisions
  unfolding start_training is_set
  adapt_decision id dp s =
      let (w', t) = start_training s.world in
      if not (is_decision_in_training conf id) && is_set dp.training
      then record {
        world = give_back? training_of dp.training s.world;
        plugins = insert id (record dp { training = none }) s.plugins;
      }
      else if is_decision_in_training conf id && not (is_set dp.training)
      then record { world = w'; plugins = insert id (record dp { training = some t }) s.plugins }
      else s

  -- One round of the first loop for a plugin that is loaded.
  unfoldable pub reload_decision : DecisionPluginConfig → DecisionPluginData → Decisions → Decisions
  unfolding adapt_decision
  reload_decision d dp s =
      let s' = record s { world = emit (reloaded dp.decision_plugin) s.world } in
      elim (env.reload decision_kind d.id dp.decision_plugin d.params) [
        | some e ↦ s'
        | none ↦ adapt_decision d.id dp s'
      ]

  unfoldable pub load_decisions_loop : List DecisionPluginConfig → Decisions → Decisions
  unfolding load_decision reload_decision
  load_decisions_loop [] s = s
  load_decisions_loop (d ∷ ds) s =
      load_decisions_loop ds (elim (lookup d.id s.plugins) [
        | none ↦ load_decision d s
        | some dp ↦ reload_decision d dp s
      ])

-- `_, ok := conf.DecisionPlugins[id]`
unfoldable pub is_configured_decision : ConfigStore → String → Bool
is_configured_decision conf id = elim (lookup id conf.decision_plugins) [
  | none ↦ false
  | some d ↦ true
]

-- A plugin that is no longer configured: its training, and then the plugin itself.
unfoldable pub unload_decision : String → DecisionPluginData → Decisions → Decisions
unload_decision id dp s = record {
  world = give_back (instance_of dp.decision_plugin) (give_back? training_of dp.training s.world);
  plugins = erase id s.plugins;
}

unfoldable pub unload_decisions_loop : ConfigStore → Map DecisionPluginData → Decisions → Decisions
unfolding unload_decision
unload_decisions_loop conf [] s = s
unload_decisions_loop conf ((id, dp) ∷ rest) s =
    unload_decisions_loop conf rest
      (if is_configured_decision conf id then s else unload_decision id dp s)

-- `loadDecisionPlugins`
unfoldable pub load_decision_plugins : Env → ConfigPointer → Decisions → Decisions × Option Error
unfolding load_decisions_loop unload_decisions_loop
load_decision_plugins env config s = elim (get config) [
  | err e ↦ (s, some e)
  | ok conf ↦
      let s' = load_decisions_loop env conf (values conf.decision_plugins) s in
      (unload_decisions_loop conf s'.plugins s', none)
]
