-- ===== src/PluginManager/Loading/FollowLaws.antt =====
-- pluginmanager/pluginmanager.go, loadModelPlugins: which plugins are loaded afterwards, and how far
-- they follow the configuration.
use mod_sec_intl_wace_lib.Base.{
  Bool, Map, Option, Option-cases, Result, Result-cases, String, ap, arith, eqb_int, eqb_int_iff,
  err, false, if-elim, inl, inr, lookup, lookup-insert, none, not, ok, refl, some, sym, true, ℕ,
  ◌&&◌, ◌=ₛ◌, ◌∙◌, ◌≡◌,
}
use mod_sec_intl_wace_lib.ConfigStore.Defs.{ConfigStore, ModelPluginConfig, is_in_training}
use mod_sec_intl_wace_lib.Training.Status.{model_kind}
use mod_sec_intl_wace_lib.PluginManager.Process.{ModelPluginData}
use mod_sec_intl_wace_lib.PluginManager.Loading.World.{Env, World, emit, open_plugin, reloaded}
use mod_sec_intl_wace_lib.PluginManager.Loading.Handlers.{
  start_handlers, stop_handlers, with_inputs, with_results,
}
use mod_sec_intl_wace_lib.PluginManager.Loading.Models.{
  Models, adapt_model, after_start, enter_model, is_set, load_model, reload_handlers, reload_model,
  reload_training, uses_nats,
}

-- A loaded plugin as the configuration wants it: of its type, in training or not, and with NATS
-- handlers only if it is async or remote.
pub record Follows (conf : ConfigStore) (m : ModelPluginConfig) (mp : ModelPluginData)
    : Type 0 where
  pub typed : mp.plugin_type ≡ m.plugin_type
  pub trained : is_set mp.training ≡ is_in_training conf m.id
  pub local : is_set mp.process_handler ≡ true → uses_nats conf m.id ≡ true

enter_model-lookup :
    (key : String) (plugins : Map ModelPluginData) (o : World × Option ModelPluginData)
    (id : String)
    → (key =ₛ id) ≡ false
    → lookup id (enter_model key plugins o).plugins ≡ lookup id plugins
unfolding enter_model
enter_model-lookup key plugins (w, none) id h = refl
enter_model-lookup key plugins (w, some mp) id h = lookup-insert key id mp plugins ∙ rw h refl

-- Started handlers change nothing else in a plugin.
abbrev pub StartedFrom : ModelPluginData → World × Result ModelPluginData → Type 0
StartedFrom mp (w, err e) = Unit {0}
StartedFrom mp (w, ok mp') =
    (ph : ℕ) × (rh : ℕ) × (mp' ≡ record mp { process_handler = some ph; results_handler = some rh })

-- What a change of a reloaded plugin has left of it.
record Keeps (mp : ModelPluginData) (changed : Bool) (o : World × ModelPluginData × Bool)
    : Type 0 where
  pub same_instance : o.1.model_plugin ≡ mp.model_plugin
  pub same_type : o.1.plugin_type ≡ mp.plugin_type
  pub unseen : o.2 ≡ false → (changed ≡ false) × (o.1 ≡ mp)

module _ (env : Env) (workers : ℕ) (conf : ConfigStore) where
  pub load_model-lookup :
      (m : ModelPluginConfig) (s : Models) (id : String)
      → (m.id =ₛ id) ≡ false
      → lookup id (load_model env workers conf m s).plugins ≡ lookup id s.plugins
  unfolding load_model
  load_model-lookup m s id h =
      elim (Result-cases (open_plugin env model_kind m.id m.path m.params)) [
        | inl (e, refused) ↦ rw (refused, load_model) refl
        | inr (_, opened) ↦ rw (opened, load_model) (enter_model-lookup m.id s.plugins _ id h)
      ]

  pub reload_model-lookup :
      (m : ModelPluginConfig) (mp : ModelPluginData) (s : Models) (id : String)
      → (m.id =ₛ id) ≡ false
      → lookup id (reload_model env workers conf m mp s).plugins ≡ lookup id s.plugins
  unfolding reload_model
  reload_model-lookup m mp s id h =
      let o = adapt_model env workers conf m mp (emit (reloaded mp.model_plugin) s.world) in
      elim (Option-cases (env.reload model_kind m.id mp.model_plugin m.params)) [
        | inr (e, refused) ↦ rw (refused, reload_model) refl
        | inl taken ↦
            rw (taken, reload_model)
              (if-elim (λ (t : Models). lookup id t.plugins ≡ lookup id s.plugins) o.2 _ _
                (λ _. lookup-insert m.id id o.1 s.plugins ∙ rw h refl) (λ _. refl))
      ]

  with_results-StartedFrom :
      (mp : ModelPluginData) (ph : ℕ) (o : World × Result ℕ)
      → StartedFrom mp (with_results env workers (some conf) mp ph o)
  unfolding with_results
  with_results-StartedFrom mp ph (w, err e) = tt
  with_results-StartedFrom mp ph (w, ok rh) = (ph, rh, refl)

  with_inputs-StartedFrom :
      (id : String) (mp : ModelPluginData) (o : World × Result ℕ)
      → StartedFrom mp (with_inputs env workers (some conf) id mp o)
  unfolding with_inputs
  with_inputs-StartedFrom id mp (w, err e) = tt
  with_inputs-StartedFrom id mp (w, ok ph) = with_results-StartedFrom mp ph _

  pub start_handlers-StartedFrom :
      (id : String) (mp : ModelPluginData) (w : World)
      → StartedFrom mp (start_handlers env workers (some conf) id mp w)
  unfolding start_handlers
  start_handlers-StartedFrom id mp w = with_inputs-StartedFrom id mp _

  after_start-Keeps :
      (mp : ModelPluginData) (changed : Bool) (o : World × Result ModelPluginData)
      → StartedFrom mp o
      → Keeps mp changed (after_start mp o) × ((after_start mp o).1.training ≡ mp.training)
  unfolding after_start
  after_start-Keeps mp changed (w, err e) h =
      (record { same_instance = refl; same_type = refl; unseen = λ c. cc }, refl)
  after_start-Keeps mp changed (w, ok mp') (ph, rh, known) = (
    record {
      same_instance = ap (λ (m : ModelPluginData). m.model_plugin) known;
      same_type = ap (λ (m : ModelPluginData). m.plugin_type) known;
      unseen = λ c. cc;
    },
    ap (λ (m : ModelPluginData). m.training) known,
  )

  -- What the change of the handlers leaves.
  abbrev HandlersKept : String → ModelPluginData → Bool → World × ModelPluginData × Bool → Type 0
  HandlersKept id mp changed o =
      Keeps mp changed o
      × (o.1.training ≡ mp.training)
      × (is_set o.1.process_handler ≡ true → uses_nats conf id ≡ true)

  reload_handlers-Keeps :
      (id : String) (mp : ModelPluginData) (changed : Bool) (w : World)
      → HandlersKept id mp changed (reload_handlers env workers conf id mp changed w)
  unfolding reload_handlers stop_handlers is_set
  reload_handlers-Keeps id mp changed w =
      let P = HandlersKept id mp changed in
      if-elim P (uses_nats conf id && not (is_set mp.process_handler)) _ _
        (λ e.
          let (k, t) = after_start-Keeps mp changed _ (start_handlers-StartedFrom id mp w) in
          (k, t, λ _. ground arith))
        (λ e.
          if-elim P (not (uses_nats conf id) && is_set mp.process_handler) _ _
            (λ e'.
              (record { same_instance = refl; same_type = refl; unseen = λ c. cc }, refl, λ c. cc))
            (λ e'. (
              record { same_instance = refl; same_type = refl; unseen = λ c. (c, refl) },
              refl,
              λ c. ground arith,
            )))

  -- What the change of the training leaves.
  abbrev TrainingKept : String → ModelPluginData → Bool → World × ModelPluginData × Bool → Type 0
  TrainingKept id mp changed o =
      Keeps mp changed o
      × (o.1.process_handler ≡ mp.process_handler)
      × (is_set o.1.training ≡ is_in_training conf id)

  reload_training-Keeps :
      (id : String) (mp : ModelPluginData) (changed : Bool) (w : World)
      → TrainingKept id mp changed (reload_training env workers conf id mp changed w)
  unfolding reload_training is_set
  reload_training-Keeps id mp changed w =
      let P = TrainingKept id mp changed in
      if-elim P (not (is_in_training conf id) && is_set mp.training) _ _
        (λ e.
          (record { same_instance = refl; same_type = refl; unseen = λ c. cc }, refl, ground arith))
        (λ e.
          if-elim P (is_in_training conf id && not (is_set mp.training)) _ _
            (λ e'. (
              record { same_instance = refl; same_type = refl; unseen = λ c. cc },
              refl,
              ground arith,
            ))
            (λ e'. (
              record { same_instance = refl; same_type = refl; unseen = λ c. (c, refl) },
              refl,
              ground arith,
            )))

  -- A plugin that has taken its new configuration follows it, and so does the plugin that stands in
  -- the map when no change was seen.
  pub adapt_model-Follows :
      (m : ModelPluginConfig) (mp : ModelPluginData) (w : World)
      → let o = adapt_model env workers conf m mp w in
        (o.1.model_plugin ≡ mp.model_plugin)
        × Follows conf m o.1
        × (o.2 ≡ false → Follows conf m mp)
  unfolding adapt_model
  adapt_model-Follows m mp w =
      let mp0 = record mp { plugin_type = m.plugin_type } in
      let changed = not (eqb_int mp.plugin_type m.plugin_type) in
      let o1 = reload_handlers env workers conf m.id mp0 changed w in
      let o2 = reload_training env workers conf m.id o1.1 o1.2 o1.0 in
      let (k1, t1, h1) = reload_handlers-Keeps m.id mp0 changed w in
      let (k2, h2, t2) = reload_training-Keeps m.id o1.1 o1.2 o1.0 in
      (
        k2.same_instance ∙ k1.same_instance,
        record {
          typed = k2.same_type ∙ k1.same_type;
          trained = t2;
          local = λ e. h1 (ap is_set (sym h2) ∙ e);
        },
        λ e.
            let (same1, same2) = k2.unseen e in
            let (same0, same) = k1.unseen same1 in
            let whole : o2.1 ≡ mp0 = same2 ∙ same in
            record {
              typed = (eqb_int_iff mp.plugin_type m.plugin_type).0 (ground arith);
              trained = ap (λ (p : ModelPluginData). is_set p.training) (sym whole) ∙ t2;
              local = λ e'. h1 (ap (λ (p : ModelPluginData). is_set p.process_handler) same ∙ e');
            },
      )
