-- ===== src/PluginManager/Loading/DrainLaws.antt =====
-- pluginmanager/pluginmanager.go, Reload as a whole: what is loaded behind it, and what is open when
-- nothing is configured.
use mod_sec_intl_wace_lib.Base.{
  =ₛ_iff, Error, Map, Option, String, [], ap, arith, lookup, none, refl, some, sum_of, ℕ, ◌+◌, ◌∙◌,
  ◌∷◌, ◌≡◌,
}
use mod_sec_intl_wace_lib.ConfigStore.Defs.{ConfigStore, get}
use mod_sec_intl_wace_lib.PluginManager.Process.{DecisionPluginData, ModelPluginData}
use mod_sec_intl_wace_lib.PluginManager.Loading.World.{Env, Resource, callback_of}
use mod_sec_intl_wace_lib.PluginManager.Loading.Models.{Models, is_configured, load_model_plugins}
use mod_sec_intl_wace_lib.PluginManager.Loading.Decisions.{
  Decisions, is_configured_decision, load_decision_plugins,
}
use mod_sec_intl_wace_lib.PluginManager.Loading.Manager.{
  Manager, load_decisions, load_models, register_metrics, reload_manager,
}
use mod_sec_intl_wace_lib.PluginManager.Loading.Ledger.{acquired_count, released_count}
use mod_sec_intl_wace_lib.PluginManager.Loading.HandlersLaws.{held}
use mod_sec_intl_wace_lib.PluginManager.Loading.ManagerLaws.{Managed, Managed-owned, after_reload}
use mod_sec_intl_wace_lib.PluginManager.Loading.EquipLaws.{models_use}
use mod_sec_intl_wace_lib.PluginManager.Loading.DecisionsHeld.{decisions_use}
use mod_sec_intl_wace_lib.PluginManager.Loading.DecisionsFollow.{load_decision_plugins-lookup}
use mod_sec_intl_wace_lib.PluginManager.Loading.Configured.{load_model_plugins-lookup}

-- The model plugins and the decision plugins of a plugin manager.
abbrev pub models_of : Manager → Models
models_of p = record { world = p.world; plugins = p.models }

abbrev pub decisions_of : Manager → Decisions
decisions_of p = record { world = p.world; plugins = p.decisions }

register_metrics-plugins :
    (env : Env) (p : Manager)
    → ((register_metrics env p).0.models ≡ p.models)
      × ((register_metrics env p).0.decisions ≡ p.decisions)
unfolding register_metrics
register_metrics-plugins env p = (ground arith, ground arith)

module _ (env : Env) (workers : ℕ) (conf : ConfigStore) (p : Manager) where
  abbrev loaded_models : Models
  loaded_models = (load_model_plugins env workers (some conf) (models_of p)).0

  abbrev pub behind_models : Manager
  behind_models = record p { world = loaded_models.world; models = loaded_models.plugins }

  abbrev loaded_decisions : Decisions
  loaded_decisions = (load_decision_plugins env (some conf) (decisions_of behind_models)).0

  abbrev behind_decisions : Manager
  behind_decisions = record behind_models {
    world = loaded_decisions.world;
    decisions = loaded_decisions.plugins;
  }

  -- With a configuration, all three parts of the reload are done.
  reload_manager-parts :
      reload_manager env workers (some conf) p ≡ register_metrics env behind_decisions
  unfolding reload_manager load_models load_decisions load_model_plugins load_decision_plugins get
  reload_manager-parts = refl

  pub reload_manager-models :
      (reload_manager env workers (some conf) p).0.models ≡ loaded_models.plugins
  reload_manager-models =
      ap (λ (o : Manager × Option Error). o.0.models) reload_manager-parts
      ∙ (register_metrics-plugins env behind_decisions).0

  pub reload_manager-decisions :
      (reload_manager env workers (some conf) p).0.decisions ≡ loaded_decisions.plugins
  reload_manager-decisions =
      ap (λ (o : Manager × Option Error). o.0.decisions) reload_manager-parts
      ∙ (register_metrics-plugins env behind_decisions).1

lookup-none {ℓ} : {V : Type ℓ} (m : Map V) → ((id : String) → lookup id m ≡ none) → m ≡ []
unfolding lookup
lookup-none [] h = refl
lookup-none ((id, v) ∷ m) h = ground (arith, h id, =ₛ_iff id id)

no_models :
    (env : Env) (workers : ℕ) (conf : ConfigStore) (s : Models)
    → conf.model_plugins ≡ []
    → (load_model_plugins env workers (some conf) s).0.plugins ≡ []
unfolding is_configured lookup
no_models env workers conf s nothing =
    lookup-none (load_model_plugins env workers (some conf) s).0.plugins
      (λ id. ground (arith, nothing, load_model_plugins-lookup env workers conf s id))

no_decisions :
    (env : Env) (conf : ConfigStore) (s : Decisions)
    → conf.decision_plugins ≡ []
    → (load_decision_plugins env (some conf) s).0.plugins ≡ []
unfolding is_configured_decision lookup
no_decisions env conf s nothing =
    lookup-none (load_decision_plugins env (some conf) s).0.plugins
      (λ id. ground (arith, nothing, load_decision_plugins-lookup env conf s id))

models_use-none :
    (r : Resource) (plugins : Map ModelPluginData) → plugins ≡ [] → models_use r plugins ≡ 0
unfolding sum_of
models_use-none r plugins e = ap (models_use r) e

decisions_use-none :
    (r : Resource) (plugins : Map DecisionPluginData) → plugins ≡ [] → decisions_use r plugins ≡ 0
unfolding sum_of
decisions_use-none r plugins e = ap (decisions_use r) e

-- After a reload with a configuration without plugins, of a plugin manager that `New` has returned,
-- nothing is loaded, and all that was ever made has been given back, every instance, training and
-- NATS handler, but for the callback of the metrics that the plugin manager holds.
pub reload_manager-held :
    {p : Manager} (env : Env) (workers : ℕ) (conf : ConfigStore)
    → Managed p
    → conf.model_plugins ≡ []
    → conf.decision_plugins ≡ []
    → let p' = (reload_manager env workers (some conf) p).0 in
      (p'.models ≡ [])
      × (p'.decisions ≡ [])
      × ((r : Resource)
          → acquired_count r p'.world.log
            ≡ released_count r p'.world.log + held r callback_of p'.metrics_reg)
reload_manager-held {p} env workers conf managed models decisions =
    let p' = (reload_manager env workers (some conf) p).0 in
    let m =
      reload_manager-models env workers conf p ∙ no_models env workers conf (models_of p) models in
    let d =
      reload_manager-decisions env workers conf p
      ∙ no_decisions env conf (decisions_of (behind_models env workers conf p)) decisions in
    (
      m,
      d,
      λ r. omega (
        arith,
        Managed-owned {p = p'} r (after_reload env workers (some conf) managed),
        models_use-none r p'.models m,
        decisions_use-none r p'.decisions d,
      ),
    )
