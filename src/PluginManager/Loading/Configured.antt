-- ===== src/PluginManager/Loading/Configured.antt =====
-- pluginmanager/pluginmanager.go, loadModelPlugins as a whole: what is loaded behind it against what
-- is configured.
use mod_sec_intl_wace_lib.Base.{
  =ₛ_iff, Bool-cases, List, Map, Option, Option-cases, String, [], arith, false, if◌then◌else◌, inl,
  inr, lookup, lookup-erase, none, refl, some, some-injective, subst, sym, ℕ, ◌=ₛ◌, ◌∙◌, ◌∷◌, ◌≡◌,
}
use mod_sec_intl_wace_lib.ConfigStore.Defs.{ConfigStore, ModelPluginConfig, get}
use mod_sec_intl_wace_lib.Training.Status.{model_kind}
use mod_sec_intl_wace_lib.PluginManager.Process.{Handle, ModelPluginData}
use mod_sec_intl_wace_lib.PluginManager.Loading.World.{Env}
use mod_sec_intl_wace_lib.PluginManager.Loading.Models.{
  Models, is_configured, load_model_plugins, load_models_loop, load_round, unload_model,
  unload_models_loop, values,
}
use mod_sec_intl_wace_lib.PluginManager.Loading.FollowLaws.{
  Follows, load_model-lookup, reload_model-lookup,
}
use mod_sec_intl_wace_lib.PluginManager.Loading.Keyed.{IsKeyed, IsKeyed-rest}
use mod_sec_intl_wace_lib.PluginManager.Loading.Outcome.{load_model-Follows, reload_model-found}

-- The instance of a loaded plugin.
unfoldable pub instance_at : String → Models → Option Handle
instance_at id s = elim (lookup id s.plugins) [ none ↦ none | some mp ↦ some mp.model_plugin ]

-- The plugin `mp` has become that of `s`, with the same instance.
abbrev Stays : String → ModelPluginData → Models → Type 0
Stays id mp s =
    (mp' : ModelPluginData) × (lookup id s.plugins ≡ some mp')
    × (mp'.model_plugin ≡ mp.model_plugin)

module _ (env : Env) (workers : ℕ) (conf : ConfigStore) where
  load_round-lookup :
      (m : ModelPluginConfig) (s : Models) (id : String)
      → (m.id =ₛ id) ≡ false
      → lookup id (load_round env workers conf m s).plugins ≡ lookup id s.plugins
  unfolding load_round
  load_round-lookup m s id h = elim (Option-cases (lookup m.id s.plugins)) [
    | inl e ↦ rw (e, load_round) (load_model-lookup env workers conf m s id h)
    | inr (mp, e) ↦ rw (e, load_round) (reload_model-lookup env workers conf m mp s id h)
  ]

  load_round-Stays :
      (m : ModelPluginConfig) (s : Models) (id : String) (mp : ModelPluginData)
      → lookup id s.plugins ≡ some mp
      → Stays id mp (load_round env workers conf m s)
  unfolding load_round
  load_round-Stays m s id mp found = elim (Bool-cases (m.id =ₛ id)) [
    | inr h ↦ (mp, load_round-lookup m s id h ∙ found, refl)
    | inl h ↦
        let same_id = (=ₛ_iff m.id id).0 h in
        let here : lookup m.id s.plugins ≡ some mp = ground (arith, same_id, found) in
        let (mp', e, same, _) = reload_model-found env workers conf m mp s here in
        (
          mp',
          subst (λ j. lookup j (load_round env workers conf m s).plugins ≡ some mp') same_id
              (rw (here, load_round) e),
          same,
        )
  ]

  load_models_loop-Stays :
      (ms : List ModelPluginConfig) (s : Models) (id : String) (mp : ModelPluginData)
      → lookup id s.plugins ≡ some mp
      → Stays id mp (load_models_loop env workers conf ms s)
  unfolding load_models_loop
  load_models_loop-Stays [] s id mp found = (mp, found, refl)
  load_models_loop-Stays (m ∷ ms) s id mp found =
      let (mp1, e1, same1) = load_round-Stays m s id mp found in
      let (mp2, e2, same2) =
        load_models_loop-Stays ms (load_round env workers conf m s) id mp1 e1 in
      (mp2, e2, same2 ∙ same1)

  load_models_loop-lookup :
      (plugins : Map ModelPluginConfig) (s : Models) (id : String)
      → IsKeyed plugins
      → lookup id plugins ≡ none
      → lookup id (load_models_loop env workers conf (values plugins) s).plugins
        ≡ lookup id s.plugins
  unfolding load_models_loop values lookup
  load_models_loop-lookup [] s id k new = refl
  load_models_loop-lookup ((j, m) ∷ plugins) s id k new =
      let (same_id, k') = IsKeyed-rest j m plugins k in
      let other : (m.id =ₛ id) ≡ false = rw same_id (ground (arith, new)) in
      load_models_loop-lookup plugins (load_round env workers conf m s) id k' (ground (arith, new))
      ∙ load_round-lookup m s id other

  -- No plugin refuses its new configuration.
  abbrev pub IsTaken : Type 0
  IsTaken = (m : ModelPluginConfig) (i : Handle) → env.reload model_kind m.id i m.params ≡ none

  load_round-Follows :
      (m : ModelPluginConfig) (s : Models) (mp : ModelPluginData)
      → IsTaken
      → lookup m.id (load_round env workers conf m s).plugins ≡ some mp
      → Follows conf m mp
  unfolding load_round
  load_round-Follows m s mp taken = elim (Option-cases (lookup m.id s.plugins)) [
    | inl e ↦ rw (e, load_round) (load_model-Follows env workers conf m s mp e)
    | inr (mp0, e) ↦
        rw (e, load_round)
          (λ found.
            let (mp', e', _, f) = reload_model-found env workers conf m mp0 s e in
            subst (Follows conf m) (some-injective mp' mp (sym e' ∙ found))
              (f (taken m mp0.model_plugin)))
  ]

  load_models_loop-Follows :
      (plugins : Map ModelPluginConfig) (s : Models) (id : String) (m : ModelPluginConfig)
      (mp : ModelPluginData)
      → IsTaken
      → IsKeyed plugins
      → lookup id plugins ≡ some m
      → lookup id (load_models_loop env workers conf (values plugins) s).plugins ≡ some mp
      → Follows conf m mp
  unfolding load_models_loop values lookup
  load_models_loop-Follows [] s id m mp taken k e found = cc
  load_models_loop-Follows ((j, m') ∷ plugins) s id m mp taken k e found =
      let (same_id, k') = IsKeyed-rest j m' plugins k in
      elim (Bool-cases (j =ₛ id)) [
        | inl h ↦
            let same = same_id ∙ (=ₛ_iff j id).0 h in
            let last : lookup id plugins ≡ none = ground (arith, k.0.0, same, same_id) in
            subst (λ c. Follows conf c mp) (some-injective m' m (ground (arith, h, e)))
              (load_round-Follows m' s mp taken (
                subst (λ i. lookup i (load_round env workers conf m' s).plugins ≡ some mp)
                  (sym same)
                  (sym (
                      load_models_loop-lookup plugins (load_round env workers conf m' s) id k' last)
                    ∙ found)))
        | inr h ↦
            load_models_loop-Follows plugins (load_round env workers conf m' s) id m mp taken k'
              (ground (arith, e)) found
      ]

-- The second loop erases the entries that are no longer configured.
unload_models_loop-lookup :
    (conf : ConfigStore) (rest : Map ModelPluginData) (s : Models) (id : String)
    → lookup id (unload_models_loop conf rest s).plugins ≡ (
        if is_configured conf id
        then lookup id s.plugins
        else elim (lookup id rest) [ none ↦ lookup id s.plugins | some mp ↦ none ])
unfolding unload_models_loop unload_model lookup
unload_models_loop-lookup conf [] s id = ground arith
unload_models_loop-lookup conf ((j, mp) ∷ rest) s id = ground (
  arith,
  =ₛ_iff j id,
  lookup-erase j id s.plugins,
  unload_models_loop-lookup conf rest s id,
  unload_models_loop-lookup conf rest (unload_model j mp s) id,
)

module _ (env : Env) (workers : ℕ) (conf : ConfigStore) (s : Models) where
  abbrev after_loop : Models
  after_loop = load_models_loop env workers conf (values conf.model_plugins) s

  pub load_model_plugins-lookup :
      (id : String)
      → lookup id (load_model_plugins env workers (some conf) s).0.plugins
        ≡ (if is_configured conf id then lookup id after_loop.plugins else none)
  unfolding load_model_plugins get
  load_model_plugins-lookup id =
      ground (arith, unload_models_loop-lookup conf after_loop.plugins after_loop id)

  -- `loadModelPlugins` with a configuration unloads each plugin that is no longer configured, and
  -- each other plugin that was loaded stays loaded with the instance that it had, whether it takes
  -- its new configuration or not.
  pub load_model_plugins-stays :
      (id : String) (i : Handle)
      → instance_at id s ≡ some i
      → instance_at id (load_model_plugins env workers (some conf) s).0
        ≡ (if is_configured conf id then some i else none)
  unfolding instance_at
  load_model_plugins-stays id i = elim (Option-cases (lookup id s.plugins)) [
    | inl e ↦ rw (e, instance_at) (λ c. ground (arith, c))
    | inr (mp, e) ↦
        rw (e, instance_at)
          (λ same.
            let (mp', e', same') =
              load_models_loop-Stays env workers conf (values conf.model_plugins) s id mp e in
            ground (arith, e', same, same', load_model_plugins-lookup id))
  ]

  -- When no plugin refuses its new configuration and each configured plugin stands once under its own
  -- identifier, every plugin that is loaded behind `loadModelPlugins` is configured and follows its
  -- configuration: it has the configured type, it is in training exactly when the configuration says
  -- so, and it has NATS handlers only if it is async or remote.
  pub load_model_plugins-follow :
      (id : String) (mp : ModelPluginData)
      → IsKeyed conf.model_plugins
      → IsTaken env workers conf
      → lookup id (load_model_plugins env workers (some conf) s).0.plugins ≡ some mp
      → (m : ModelPluginConfig) × (lookup id conf.model_plugins ≡ some m) × Follows conf m mp
  unfolding is_configured
  load_model_plugins-follow id mp k taken found =
      elim (Option-cases (lookup id conf.model_plugins)) [
        | inl e ↦ ground (arith, e, load_model_plugins-lookup id, found)
        | inr (m, e) ↦ (
          m,
          e,
          load_models_loop-Follows env workers conf conf.model_plugins s id m mp taken k e
              (ground (arith, e, load_model_plugins-lookup id, found)),
        )
      ]
