-- ===== src/Core/ReloadLaws.antt =====
-- wacecore.go, Reload, down to the plugins that are loaded behind it.
use mod_sec_intl_wace_lib.Base.{
  Map, Option, Option-cases, String, ap, arith, if◌then◌else◌, inl, inr, lookup, none, some, sym,
  true, ℕ, ◌∙◌, ◌≡◌,
}
use mod_sec_intl_wace_lib.ConfigStore.Defs.{
  ConfigFileData, ConfigStore, DecisionPluginConfig, ModelPluginConfig,
}
use mod_sec_intl_wace_lib.Training.Status.{PluginKind, decision_kind, model_kind}
use mod_sec_intl_wace_lib.PluginManager.Process.{DecisionPluginData, Handle, ModelPluginData}
use mod_sec_intl_wace_lib.PluginManager.Loading.World.{Env}
use mod_sec_intl_wace_lib.PluginManager.Loading.Models.{is_configured, is_set, uses_nats}
use mod_sec_intl_wace_lib.PluginManager.Loading.Decisions.{is_configured_decision}
use mod_sec_intl_wace_lib.PluginManager.Loading.DecisionsRound.{
  AreTaken, DecisionFollows, decision_instance_at,
}
use mod_sec_intl_wace_lib.PluginManager.Loading.DecisionsFollow.{
  load_decision_plugins-follow, load_decision_plugins-stays,
}
use mod_sec_intl_wace_lib.PluginManager.Loading.Manager.{Manager, reload_manager}
use mod_sec_intl_wace_lib.PluginManager.Loading.FollowLaws.{Follows}
use mod_sec_intl_wace_lib.PluginManager.Loading.ManagerLaws.{
  Managed, Managed-ManagerInv, after_reload,
}
use mod_sec_intl_wace_lib.PluginManager.Loading.Keyed.{IsStored}
use mod_sec_intl_wace_lib.PluginManager.Loading.Configured.{
  IsTaken, instance_at, load_model_plugins-follow, load_model_plugins-stays,
}
use mod_sec_intl_wace_lib.PluginManager.Loading.DrainLaws.{
  behind_models, decisions_of, models_of, reload_manager-decisions, reload_manager-models,
}
use mod_sec_intl_wace_lib.Core.Lifecycle.{
  Core, Host, logger_or_default, reload, reload_plugins, returned,
}
use mod_sec_intl_wace_lib.Core.LifecycleLaws.{reload-Replaces}

-- The model plugins of `p'` are those of `p` under the configuration `cs`: each that is loaded is
-- configured and follows it, and each that was loaded stays, with its instance, exactly if it is still
-- configured.
abbrev pub ModelsFollow : ConfigStore → Manager → Manager → Type 0
ModelsFollow cs p p' =
    ((id : String) (mp : ModelPluginData)
      → lookup id p'.models ≡ some mp
      → (m : ModelPluginConfig) × (lookup id cs.model_plugins ≡ some m)
        × Follows cs m mp
        × (is_set mp.results_handler ≡ true → uses_nats cs m.id ≡ true))
    × ((id : String) (i : Handle)
        → instance_at id (models_of p) ≡ some i
        → instance_at id (models_of p') ≡ (if is_configured cs id then some i else none))

-- So are its decision plugins.
abbrev pub DecisionsFollow : ConfigStore → Manager → Manager → Type 0
DecisionsFollow cs p p' =
    ((id : String) (dp : DecisionPluginData)
      → lookup id p'.decisions ≡ some dp
      → (d : DecisionPluginConfig) × (lookup id cs.decision_plugins ≡ some d)
        × DecisionFollows cs d dp)
    × ((id : String) (i : Handle)
        → decision_instance_at id (decisions_of p) ≡ some i
        → decision_instance_at id (decisions_of p')
          ≡ (if is_configured_decision cs id then some i else none))

module _ (env : Env) (workers : ℕ) (cs : ConfigStore) (p : Manager) (stored : IsStored cs) where
  -- A results handler is there only beside a process handler.
  reload_manager-ModelsFollow :
      Managed p
      → IsTaken env workers cs
      → ModelsFollow cs p (reload_manager env workers (some cs) p).0
  unfolding instance_at
  reload_manager-ModelsFollow managed taken =
      let models = reload_manager-models env workers cs p in
      let inv = Managed-ManagerInv (after_reload env workers (some cs) managed) in
      (
        λ id mp found.
            let (m, there, follows) =
              load_model_plugins-follow env workers cs (models_of p) id mp stored.1 taken
                (rw models at found) in
            (m, there, follows, λ on. follows.local (inv.paired id mp found ∙ on)),
        λ id i held.
            ap
              (λ (pl : Map ModelPluginData).
                instance_at id (record { world = p.world; plugins = pl }))
              models
            ∙ load_model_plugins-stays env workers cs (models_of p) id i held,
      )

  reload_manager-DecisionsFollow :
      AreTaken env cs → DecisionsFollow cs p (reload_manager env workers (some cs) p).0
  unfolding decision_instance_at
  reload_manager-DecisionsFollow taken =
      let decisions = reload_manager-decisions env workers cs p in
      let before = decisions_of (behind_models env workers cs p) in
      (
        λ id dp found.
            load_decision_plugins-follow env cs before id dp stored.2 taken (rw decisions at found),
        λ id i held.
            ap
              (λ (pl : Map DecisionPluginData).
                decision_instance_at id (record { world = p.world; plugins = pl }))
              decisions
            ∙ load_decision_plugins-stays env cs before id i held,
      )

-- `reload_plugins` succeeds with a plugin manager only.
reload_plugins-done :
    (h : Host) (c c' : Core)
    → reload_plugins h c ≡ (c', returned none)
    → (p : Manager) × (c.manager ≡ some p)
      × (c'.config ≡ c.config)
      × (c'.manager ≡ some (reload_manager h.env h.workers c.config p).0)
unfolding reload_plugins
reload_plugins-done h c c' ended = elim (Option-cases c.manager) [
  | inl missing ↦ ground (arith, ended, missing)
  | inr (p, there) ↦ (p, there, ground (arith, ended, there), ground (arith, ended, there))
]

-- When `Reload` succeeds and no plugin refuses its new configuration, the configuration that is
-- stored is well formed, each loaded model plugin and each loaded decision plugin is configured in
-- it and follows it: model plugins have the configured type, both kinds are in training exactly
-- when they should be, and a model plugin has NATS handlers only if it is async or remote. Each
-- plugin that was loaded is still there, with its instance, exactly if it is still configured. The
-- plugin manager is one that `New` has returned, reloaded any number of times since.
pub reload-ModelsFollow :
    (h : Host) (mp : Option ℕ) (conf : ConfigFileData) (l : Option ℕ) (c : Core) (c' : Core)
    → ((kind : PluginKind) (id : String) (i : Handle) (params : Map String)
        → h.env.reload kind id i params ≡ none)
    → ((p : Manager) → c.manager ≡ some p → Managed p)
    → reload h mp conf l c ≡ (c', returned none)
    → (cs : ConfigStore) × (p : Manager) × (p' : Manager) × (c'.config ≡ some cs)
      × IsStored cs
      × (c.manager ≡ some p)
      × (c'.manager ≡ some p')
      × ModelsFollow cs p p'
      × DecisionsFollow cs p p'
reload-ModelsFollow h mp conf l c c' taken managed ended = elim (reload-Replaces h mp conf l c) [
  | inl (e, refused) ↦ ground (arith, refused, ended)
  | inr (current, now, same, (cs, metrics, stored, url, made, o)) ↦
      let c1 : Core = record c {
        config = some cs;
        metrics = metrics;
        logger = logger_or_default h l;
      } in
      let (p, there, config, manager) = reload_plugins-done h c1 c' (sym o ∙ ended) in
      (
        cs,
        p,
        (reload_manager h.env h.workers (some cs) p).0,
        config,
        stored,
        there,
        manager,
        reload_manager-ModelsFollow h.env h.workers cs p stored (managed p there)
            (λ m i. taken model_kind m.id i m.params),
        reload_manager-DecisionsFollow h.env h.workers cs p stored
            (λ d i. taken decision_kind d.id i d.params),
      )
]
