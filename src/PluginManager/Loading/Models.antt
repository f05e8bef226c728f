-- ===== src/PluginManager/Loading/Models.antt =====
-- pluginmanager/pluginmanager.go, loadModelPlugins: new plugins are loaded, those that are there get
-- their new configuration, and those that are no longer configured are unloaded.
use mod_sec_intl_wace_lib.Base.{
  Bool, Error, List, Map, Option, Result, String, [], eqb_int, erase, err, false, if◌then◌else◌,
  insert, lookup, none, not, ok, some, true, ℕ, ◌&&◌, ◌||◌, ◌∷◌,
}
use mod_sec_intl_wace_lib.ConfigStore.Defs.{
  ConfigPointer, ConfigStore, ModelPluginConfig, get, is_async, is_in_training, is_remote,
}
use mod_sec_intl_wace_lib.Training.Status.{model_kind}
use mod_sec_intl_wace_lib.PluginManager.Process.{Handle, ModelPluginData}
use mod_sec_intl_wace_lib.PluginManager.Loading.World.{
  Env, World, emit, give_back, give_back?, instance_of, make, open_plugin, reloaded, start_training,
  training_of,
}
use mod_sec_intl_wace_lib.PluginManager.Loading.Handlers.{start_handlers, stop_handlers}

-- The plugins and what they hold.
pub record Loaded (D : Type 0) : Type 0 where
  pub world : World
  pub plugins : Map D

abbrev pub Models : Type 0
Models = Loaded ModelPluginData

unfoldable pub is_set : Option ℕ → Bool
is_set none = false
is_set (some n) = true

unfoldable pub uses_nats : ConfigStore → String → Bool
uses_nats conf id = is_async conf id || is_remote conf id

-- The plugin is entered, if it is equipped.
unfoldable pub enter_model : String → Map ModelPluginData → World × Option ModelPluginData → Models
enter_model id plugins (w, none) = record { world = w; plugins = plugins }
enter_model id plugins (w, some mp) = record { world = w; plugins = insert id mp plugins }

-- A plugin that is reloaded stays as it is when its handlers cannot be started.
unfoldable pub after_start :
    ModelPluginData → World × Result ModelPluginData → World × ModelPluginData × Bool
after_start mp (w, err e) = (w, mp, true)
after_start mp (w, ok mp') = (w, mp', true)

-- A plugin as it is right behind its constructor.
abbrev pub new_model : ModelPluginConfig → Handle → ModelPluginData
new_model m i = record {
  plugin_type = m.plugin_type;
  model_plugin = i;
  training = none;
  process_handler = none;
  results_handler = none;
}

module _ (env : Env) (workers : ℕ) (conf : ConfigStore) where
  -- `if conf.IsInTraining(data.ID) { … }` for a new plugin.
  unfoldable pub train_new : String → ModelPluginData → World → World × ModelPluginData
  unfolding start_training
  train_new id mp w =
      let (w', t) = start_training w in
      if is_in_training conf id then (w', record mp { training = some t }) else (w, mp)

  -- A new plugin behind `startHandlers`: without its handlers it is cleaned and not loaded.
  unfoldable pub equip_started :
      String → ModelPluginData → World × Result ModelPluginData → World × Option ModelPluginData
  unfolding train_new
  equip_started id mp (w, err e) = (give_back (instance_of mp.model_plugin) w, none)
  equip_started id mp (w, ok mp') = let (w', trained) = train_new id mp' w in (w', some trained)

  -- A new instance, its handlers and its training.
  unfoldable pub equip_model : String → ModelPluginData → World → World × Option ModelPluginData
  unfolding start_handlers equip_started uses_nats
  equip_model id mp w =
      if uses_nats conf id
      then equip_started id mp (start_handlers env workers (some conf) id mp w)
      else equip_started id mp (w, ok mp)

  -- The round for a plugin that is not loaded.
  unfoldable pub load_model : ModelPluginConfig → Models → Models
  unfolding equip_model enter_model
  load_model m s = elim (open_plugin env model_kind m.id m.path m.params) [
    | err e ↦ s
    | ok _ ↦
        let (w, i) = make instance_of s.world in
        enter_model m.id s.plugins (equip_model m.id (new_model m i) w)
  ]

  -- The handlers of a plugin that is reloaded are started or stopped when it changes between local
  -- and async or remote. The flag says whether the data has changed.
  unfoldable pub reload_handlers :
      String → ModelPluginData → Bool → World → World × ModelPluginData × Bool
  unfolding start_handlers stop_handlers uses_nats is_set after_start
  reload_handlers id mp changed w =
      let (stopped, bare) = stop_handlers mp w in
      if uses_nats conf id && not (is_set mp.process_handler)
      then after_start mp (start_handlers env workers (some conf) id mp w)
      else if not (uses_nats conf id) && is_set mp.process_handler
      then (stopped, bare, true)
      else (w, mp, changed)

  -- So is its training.
  unfoldable pub reload_training :
      String → ModelPluginData → Bool → World → World × ModelPluginData × Bool
  unfolding start_training is_set
  reload_training id mp changed w =
      let (w', t) = start_training w in
      if not (is_in_training conf id) && is_set mp.training
      then (give_back? training_of mp.training w, record mp { training = none }, true)
      else if is_in_training conf id && not (is_set mp.training)
      then (w', record mp { training = some t }, true)
      else (w, mp, changed)

  -- What is done with a plugin that has taken its new configuration.
  unfoldable pub adapt_model :
      ModelPluginConfig → ModelPluginData → World → World × ModelPluginData × Bool
  unfolding reload_handlers reload_training
  adapt_model m mp w =
      let changed = not (eqb_int mp.plugin_type m.plugin_type) in
      let (w1, mp1, changed1) =
        reload_handlers m.id (record mp { plugin_type = m.plugin_type }) changed w in
      reload_training m.id mp1 changed1 w1

  -- The round for a plugin that is loaded.
  unfoldable pub reload_model : ModelPluginConfig → ModelPluginData → Models → Models
  unfolding adapt_model
  reload_model m mp s =
      let w = emit (reloaded mp.model_plugin) s.world in
      let (w', mp', changed) = adapt_model m mp w in
      elim (env.reload model_kind m.id mp.model_plugin m.params) [
        | some e ↦ record s { world = w }
        | none ↦
            if changed
            then record { world = w'; plugins = insert m.id mp' s.plugins }
            else record s { world = w' }
      ]

  -- One round of the first loop.
  unfoldable pub load_round : ModelPluginConfig → Models → Models
  unfolding load_model reload_model
  load_round m s = elim (lookup m.id s.plugins) [
    | none ↦ load_model m s
    | some mp ↦ reload_model m mp s
  ]

  -- The first loop, over the configured plugins.
  unfoldable pub load_models_loop : List ModelPluginConfig → Models → Models
  unfolding load_round
  load_models_loop [] s = s
  load_models_loop (m ∷ ms) s = load_models_loop ms (load_round m s)

-- A plugin that is no longer configured: its training, its handlers, and then the plugin itself.
unfoldable pub unload_model : String → ModelPluginData → Models → Models
unfolding stop_handlers
unload_model id mp s =
    let w = give_back? training_of mp.training s.world in
    let (w', _) = stop_handlers mp w in
    record { world = give_back (instance_of mp.model_plugin) w'; plugins = erase id s.plugins }

-- `_, ok := conf.ModelPlugins[id]`
unfoldable pub is_configured : ConfigStore → String → Bool
is_configured conf id = elim (lookup id conf.model_plugins) [ none ↦ false | some m ↦ true ]

-- The second loop, over the plugins that are loaded when it starts.
unfoldable pub unload_models_loop : ConfigStore → Map ModelPluginData → Models → Models
unfolding unload_model
unload_models_loop conf [] s = s
unload_models_loop conf ((id, mp) ∷ rest) s =
    unload_models_loop conf rest (if is_configured conf id then s else unload_model id mp s)

-- The configurations of a map.
unfoldable pub values {ℓ} : {V : Type ℓ} → Map V → List V
values [] = []
values ((k, v) ∷ m) = v ∷ values m

-- `loadModelPlugins`
unfoldable pub load_model_plugins : Env → ℕ → ConfigPointer → Models → Models × Option Error
unfolding load_models_loop unload_models_loop values
load_model_plugins env workers config s = elim (get config) [
  | err e ↦ (s, some e)
  | ok conf ↦
      let s' = load_models_loop env workers conf (values conf.model_plugins) s in
      (unload_models_loop conf s'.plugins s', none)
]
