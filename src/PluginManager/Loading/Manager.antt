-- ===== src/PluginManager/Loading/Manager.antt =====
-- pluginmanager/pluginmanager.go, New and Reload, with registerMetrics of metrics.go. Nothing of the
-- logger and of the meters that the plugins get is kept here: they change no state of WACE.
use mod_sec_intl_wace_lib.Base.{
  Bool, Error, Map, Option, [], err, false, if◌then◌else◌, none, ok, some, true, ℕ, ◌=ₛ◌,
}
use mod_sec_intl_wace_lib.ConfigStore.Defs.{ConfigPointer, get}
use mod_sec_intl_wace_lib.PluginManager.Process.{DecisionPluginData, ModelPluginData}
use mod_sec_intl_wace_lib.PluginManager.Loading.World.{Env, World, callback_of, give_back?, make}
use mod_sec_intl_wace_lib.PluginManager.Loading.Models.{load_model_plugins}
use mod_sec_intl_wace_lib.PluginManager.Loading.Decisions.{load_decision_plugins}

-- What the plugin manager keeps of its plugins, its callback, and whether it has a connection.
pub record Manager : Type 0 where
  pub world : World
  pub models : Map ModelPluginData
  pub decisions : Map DecisionPluginData
  pub metrics_reg : Option ℕ
  pub connected : Bool

-- `registerMetrics`: the new callback takes the place of the old one. That the old one cannot be
-- unregistered is only logged.
unfoldable pub register_metrics : Env → Manager → Manager × Option Error
register_metrics env p = elim env.make_gauge [
  | err e ↦ (p, some e)
  | ok _ ↦ elim env.register_callback [
    | err e ↦ (p, some e)
    | ok _ ↦
        let (w, c) = make callback_of p.world in
        (record p { world = give_back? callback_of p.metrics_reg w; metrics_reg = some c }, none)
  ]
]

-- `loadModelPlugins` and `loadDecisionPlugins` on the fields of the plugin manager.
unfoldable pub load_models : Env → ℕ → ConfigPointer → Manager → Manager × Option Error
load_models env workers config p =
    let (s, e) =
      load_model_plugins env workers config (record { world = p.world; plugins = p.models }) in
    (record p { world = s.world; models = s.plugins }, e)

unfoldable pub load_decisions : Env → ConfigPointer → Manager → Manager × Option Error
load_decisions env config p =
    let (s, e) =
      load_decision_plugins env config (record { world = p.world; plugins = p.decisions }) in
    (record p { world = s.world; decisions = s.plugins }, e)

-- `if err != nil { return err }` behind a call that changes the plugin manager.
abbrev pub and_then :
    Manager × Option Error → (Manager → Manager × Option Error) → Manager × Option Error
and_then (p, none) f = f p
and_then (p, some e) f = (p, some e)

-- `Reload`
unfoldable pub reload_manager : Env → ℕ → ConfigPointer → Manager → Manager × Option Error
reload_manager env workers config p =
    and_then (load_models env workers config p)
      λ p'. and_then (load_decisions env config p') λ p''. register_metrics env p''

-- A plugin manager with nothing loaded.
abbrev pub empty_manager : World → Manager
empty_manager w = record {
  world = w;
  models = [];
  decisions = [];
  metrics_reg = none;
  connected = false;
}

-- The rest of `New`, behind the connection. The errors of the two loads are dropped.
unfoldable pub fill_manager : Env → ℕ → ConfigPointer → Manager → Manager × Option Error
unfolding load_models load_decisions register_metrics
fill_manager env workers config p =
    register_metrics env (load_decisions env config (load_models env workers config p).0).0

-- `New`: the plugin manager, which the caller gets only without an error.
unfoldable pub new_manager : Env → ℕ → ConfigPointer → World → Manager × Option Error
unfolding fill_manager
new_manager env workers config w = elim (get config) [
  | err e ↦ (empty_manager w, some e)
  | ok conf ↦
      if conf.nats_url =ₛ ""
      then fill_manager env workers config (empty_manager w)
      else elim (env.connect_manager conf.nats_url) [
        | err e ↦ (empty_manager w, some e)
        | ok _ ↦ fill_manager env workers config (record (empty_manager w) { connected = true })
      ]
]
