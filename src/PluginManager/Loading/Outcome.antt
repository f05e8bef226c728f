-- ===== src/PluginManager/Loading/Outcome.antt =====
-- pluginmanager/pluginmanager.go, loadModelPlugins: the rounds of its two loops as the map of the
-- loaded plugins sees them.
use mod_sec_intl_wace_lib.Base.{
  =ₛ_iff, Error, Map, Option, Option-cases, Result, Result-cases, ap, arith, err, if-elim, inl, inr,
  lookup, lookup-insert, none, ok, refl, some, some-injective, subst, sym, true, ℕ, ◌∙◌, ◌≡◌,
}
use mod_sec_intl_wace_lib.ConfigStore.Defs.{ConfigStore, ModelPluginConfig, is_in_training}
use mod_sec_intl_wace_lib.Training.Status.{model_kind}
use mod_sec_intl_wace_lib.PluginManager.Process.{ModelPluginData}
use mod_sec_intl_wace_lib.PluginManager.Loading.World.{Env, World, emit, open_plugin, reloaded}
use mod_sec_intl_wace_lib.PluginManager.Loading.Handlers.{start_handlers}
use mod_sec_intl_wace_lib.PluginManager.Loading.Models.{
  Models, adapt_model, enter_model, equip_model, equip_started, is_set, load_model, new_model,
  reload_model, train_new, uses_nats,
}
use mod_sec_intl_wace_lib.PluginManager.Loading.FollowLaws.{
  Follows, StartedFrom, adapt_model-Follows, start_handlers-StartedFrom,
}

-- A new plugin that is equipped follows its configuration.
abbrev EquipFollows : ConfigStore → ModelPluginConfig → World × Option ModelPluginData → Type 0
EquipFollows conf m (w, none) = Unit {0}
EquipFollows conf m (w, some mp) = Follows conf m mp

-- A new plugin behind `startHandlers`, or without it.
abbrev IsFresh : ConfigStore → ModelPluginConfig → World × Result ModelPluginData → Type 0
IsFresh conf m (w, err e) = Unit {0}
IsFresh conf m (w, ok mp) =
    (mp.plugin_type ≡ m.plugin_type)
    × (mp.training ≡ none)
    × (is_set mp.process_handler ≡ true → uses_nats conf m.id ≡ true)

enter_model-found :
    (conf : ConfigStore) (m : ModelPluginConfig) (plugins : Map ModelPluginData)
    (o : World × Option ModelPluginData) (mp : ModelPluginData)
    → EquipFollows conf m o
    → lookup m.id plugins ≡ none
    → lookup m.id (enter_model m.id plugins o).plugins ≡ some mp
    → Follows conf m mp
unfolding enter_model
enter_model-found conf m plugins (w, none) mp f new e = ground (arith, new, e)
enter_model-found conf m plugins (w, some mp0) mp f new e =
    subst (Follows conf m)
      (some-injective mp0 mp
        (ground (arith, lookup-insert m.id m.id mp0 plugins, =ₛ_iff m.id m.id)))
      f

StartedFrom-IsFresh :
    (conf : ConfigStore) (m : ModelPluginConfig) (i : ℕ) (o : World × Result ModelPluginData)
    → StartedFrom (new_model m i) o
    → uses_nats conf m.id ≡ true
    → IsFresh conf m o
StartedFrom-IsFresh conf m i (w, err e) h u = tt
StartedFrom-IsFresh conf m i (w, ok mp) (ph, rh, known) u = (
  ap (λ (p : ModelPluginData). p.plugin_type) known,
  ap (λ (p : ModelPluginData). p.training) known,
  λ _. u,
)

module _ (env : Env) (workers : ℕ) (conf : ConfigStore) where
  equip_started-Follows :
      (m : ModelPluginConfig) (mp0 : ModelPluginData) (o : World × Result ModelPluginData)
      → IsFresh conf m o
      → EquipFollows conf m (equip_started env workers conf m.id mp0 o)
  unfolding equip_started train_new is_set
  equip_started-Follows m mp0 (w, err e) h = tt
  equip_started-Follows m mp0 (w, ok mp) (t, n, u) =
      if-elim (λ (o : World × ModelPluginData). Follows conf m o.1) (is_in_training conf m.id) _ _
        (λ e. record { typed = t; trained = sym e; local = u })
        (λ e. record { typed = t; trained = ap is_set n ∙ sym e; local = u })

  equip_model-Follows :
      (m : ModelPluginConfig) (i : ℕ) (w : World)
      → EquipFollows conf m (equip_model env workers conf m.id (new_model m i) w)
  unfolding equip_model is_set
  equip_model-Follows m i w =
      let mp = new_model m i in
      if-elim (EquipFollows conf m) (uses_nats conf m.id) _ _
        (λ e. equip_started-Follows m mp _ (
          StartedFrom-IsFresh conf m i (start_handlers env workers (some conf) m.id mp w)
            (start_handlers-StartedFrom env workers conf m.id mp w) e))
        (λ e. equip_started-Follows m mp (w, ok mp) (refl, refl, λ c. cc))

  -- A plugin that a round of the first loop has loaded follows its configuration.
  pub load_model-Follows :
      (m : ModelPluginConfig) (s : Models) (mp : ModelPluginData)
      → lookup m.id s.plugins ≡ none
      → lookup m.id (load_model env workers conf m s).plugins ≡ some mp
      → Follows conf m mp
  unfolding load_model
  load_model-Follows m s mp new =
      elim (Result-cases (open_plugin env model_kind m.id m.path m.params)) [
        | inl (e, refused) ↦ rw (refused, load_model) (λ found. ground (arith, new, found))
        | inr (_, opened) ↦
            rw (opened, load_model)
              (enter_model-found conf m s.plugins _ mp (equip_model-Follows m _ _) new)
      ]

  -- So does one that was loaded before and has taken its new configuration; in any case it is still
  -- there, with the instance that it had.
  pub reload_model-found :
      (m : ModelPluginConfig) (mp : ModelPluginData) (s : Models)
      → lookup m.id s.plugins ≡ some mp
      → (mp' : ModelPluginData) × (lookup m.id (reload_model env workers conf m mp s).plugins
          ≡ some mp')
        × (mp'.model_plugin ≡ mp.model_plugin)
        × (env.reload model_kind m.id mp.model_plugin m.params ≡ none → Follows conf m mp')
  unfolding reload_model
  reload_model-found m mp s found =
      let o = adapt_model env workers conf m mp (emit (reloaded mp.model_plugin) s.world) in
      let (same, f, kept) =
        adapt_model-Follows env workers conf m mp (emit (reloaded mp.model_plugin) s.world) in
      elim (Option-cases (env.reload model_kind m.id mp.model_plugin m.params)) [
        | inr (e, refused) ↦ rw (refused, reload_model) (mp, found, refl, λ c. cc)
        | inl taken ↦
            rw (taken, reload_model)
              (if-elim
                (λ (t : Models).
                  (mp' : ModelPluginData) × (lookup m.id t.plugins ≡ some mp')
                  × (mp'.model_plugin ≡ mp.model_plugin)
                  × (◌≡◌ {A = Option Error} none none → Follows conf m mp'))
                o.2 _ _
                (λ _. (
                  o.1,
                  ground (arith, lookup-insert m.id m.id o.1 s.plugins, =ₛ_iff m.id m.id),
                  same,
                  λ _. f,
                ))
                (λ c. (mp, found, refl, λ _. kept c)))
      ]
