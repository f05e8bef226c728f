-- ===== src/ConfigStore/SetConfigLaws.antt =====
-- configstore/configstore.go, SetConfig: the well-formedness of a stored configuration.
use mod_sec_intl_wace_lib.Base.{
  =ₛ_iff, >>=-eq-ok, All, Bool, Error, List, Map, Option, String, [], arith, div10, eqb_int_iff,
  err, false, insert, lookup, lookup-insert, ltb_int, max_int, negsuc, none, ok, pos, refl, some,
  subst, sym, true, ℤ, ◌<ℤ◌, ◌||◌, ◌∷◌, ◌≡◌, ◌≢◌, ◌≤ℤ◌,
}
use mod_sec_intl_wace_lib.ConfigStore.PluginType.{
  is_valid, string_to_plugin_type, string_to_plugin_type_iff,
}
use mod_sec_intl_wace_lib.ConfigStore.Defs.{
  ConfigFileData, ConfigFileDecisionPlugin, ConfigFileModelPlugin, ConfigPointer, ConfigStore,
  DecisionPluginConfig, Duration, ModelPluginConfig, TrainingData,
}
use mod_sec_intl_wace_lib.ConfigStore.Check.{check_config}
use mod_sec_intl_wace_lib.ConfigStore.CheckLaws.{
  ConfigIsAccepted, DecisionIsAccepted, IsGoodCounts, IsTimeout, ModelIsAccepted, check_config_iff,
}
use mod_sec_intl_wace_lib.ConfigStore.SetConfig.{
  decision_config, decision_configs, default_interval, model_config, model_configs, new_store,
  or_default, set_config,
}

-- A stored model plugin: what `checkConfig` asks of the file still holds after the conversion, and
-- the update interval is no longer 0.
pub record ModelIsValid (nats_url : String) (m : ModelPluginConfig) : Type 0 where
  pub type_valid : is_valid m.plugin_type ≡ true
  pub timeout_natural : pos 0 ≤ℤ m.timeout
  pub training_is_local : m.training ≡ true → (m.async ≡ false) × (m.remote ≡ false)
  pub nats_given : (m.async || m.remote) ≡ true → nats_url ≢ ""
  pub counts_good : m.training ≡ true → IsGoodCounts m.training_data
  pub interval_set : m.training_data.status_update_interval ≢ pos 0

pub record DecisionIsValid (d : DecisionPluginConfig) : Type 0 where
  pub timeout_natural : pos 0 ≤ℤ d.timeout
  pub counts_good : d.training ≡ true → IsGoodCounts d.training_data
  pub interval_set : d.training_data.status_update_interval ≢ pos 0

pub record ConfigIsValid (c : ConfigStore) : Type 0 where
  pub model_timeout_natural : pos 0 ≤ℤ c.model_timeout
  pub async_timeout_natural : pos 0 ≤ℤ c.async_model_timeout
  pub models_valid :
      (id : String) (m : ModelPluginConfig)
      → lookup id c.model_plugins ≡ some m
      → (m.id ≡ id) × ModelIsValid c.nats_url m
  pub decisions_valid :
      (id : String) (d : DecisionPluginConfig)
      → lookup id c.decision_plugins ≡ some d
      → (d.id ≡ id) × DecisionIsValid d

max_int-pos :
    (a : ℤ) → (max_int (pos 1) (div10 a) ≢ pos 0) × (pos 0 <ℤ a → max_int (pos 1) (div10 a) ≤ℤ a)
unfolding max_int div10 ltb_int
max_int-pos (pos n) = (λ h. ground arith, λ h. ground arith)
max_int-pos (negsuc n) = (λ h. ground arith, λ h. ground arith)

default_interval-set : (td : TrainingData) → (default_interval td).status_update_interval ≢ pos 0
unfolding default_interval
default_interval-set td =
    ground (arith, eqb_int_iff td.status_update_interval (pos 0), max_int-pos td.max_samples)

default_interval-good : (td : TrainingData) → IsGoodCounts td → IsGoodCounts (default_interval td)
unfolding default_interval
default_interval-good td h =
    ground (arith, eqb_int_iff td.status_update_interval (pos 0), max_int-pos td.max_samples)

module _ (exists : String → Bool) (nats_url : String) where
  model_config-IsValid :
      (m : ConfigFileModelPlugin) (c : ModelPluginConfig)
      → ModelIsAccepted exists nats_url m
      → model_config m ≡ ok c
      → (c.id ≡ m.id) × ModelIsValid nats_url c
  unfolding model_config
  model_config-IsValid m c h e =
      let (t, read, built) = >>=-eq-ok (string_to_plugin_type m.plugin_type) _ e in
      (
        ground arith,
        record {
          type_valid = ground (arith, (string_to_plugin_type_iff m.plugin_type t).0 read);
          timeout_natural = ground arith;
          training_is_local = ground arith;
          nats_given = ground arith;
          counts_good = λ tr.
              ground (arith, default_interval-good m.training_data (h.counts_good (ground arith)));
          interval_set = ground (arith, default_interval-set m.training_data);
        },
      )

  -- What a map of stored models satisfies.
  abbrev ModelsAreValid : Map ModelPluginConfig → Type 0
  ModelsAreValid configs =
      (id : String) (m : ModelPluginConfig)
      → lookup id configs ≡ some m
      → (m.id ≡ id) × ModelIsValid nats_url m

  model_configs-IsValid :
      (ms : List ConfigFileModelPlugin) (configs result : Map ModelPluginConfig)
      → All (ModelIsAccepted exists nats_url) ms
      → ModelsAreValid configs
      → model_configs ms configs ≡ ok result
      → ModelsAreValid result
  unfolding model_configs
  model_configs-IsValid [] configs result h valid e = ground arith
  model_configs-IsValid (m ∷ ms) configs result h valid e =
      let (c, built, rest) = >>=-eq-ok (model_config m) _ e in
      let (same, c_valid) = model_config-IsValid m c h.0 built in
      model_configs-IsValid ms (insert c.id c configs) result h.1
        (λ id n found. ground (arith, lookup-insert c.id id c configs, =ₛ_iff c.id id, valid id n))
        rest

decision_config-id : (d : ConfigFileDecisionPlugin) → (decision_config d).id ≡ d.id
unfolding decision_config
decision_config-id d = refl

module _ (exists : String → Bool) where
  decision_config-IsValid :
      (d : ConfigFileDecisionPlugin)
      → DecisionIsAccepted exists d
      → DecisionIsValid (decision_config d)
  unfolding decision_config
  decision_config-IsValid d h = record {
    timeout_natural = h.timeout_natural;
    counts_good = λ t. default_interval-good d.training_data (h.counts_good t);
    interval_set = default_interval-set d.training_data;
  }

  abbrev DecisionsAreValid : Map DecisionPluginConfig → Type 0
  DecisionsAreValid configs =
      (id : String) (d : DecisionPluginConfig)
      → lookup id configs ≡ some d
      → (d.id ≡ id) × DecisionIsValid d

  decision_configs-IsValid :
      (ds : List ConfigFileDecisionPlugin) (configs : Map DecisionPluginConfig)
      → All (DecisionIsAccepted exists) ds
      → DecisionsAreValid configs
      → DecisionsAreValid (decision_configs ds configs)
  unfolding decision_configs
  decision_configs-IsValid [] configs h valid = valid
  decision_configs-IsValid (d ∷ ds) configs h valid =
      decision_configs-IsValid ds (insert d.id (decision_config d) configs) h.1 λ id n found.
        ground (
          arith,
          lookup-insert d.id id (decision_config d) configs,
          =ₛ_iff d.id id,
          valid id n,
          decision_config-IsValid d h.0,
          decision_config-id d,
        )

  or_default-natural :
      (o : Option Duration) (d : Duration) → IsTimeout o → pos 0 ≤ℤ d → pos 0 ≤ℤ or_default o d
  unfolding or_default
  or_default-natural none d h k = k
  or_default-natural (some v) d h k = h

  -- What a successful call has passed.
  pub set_config_inv :
      (f : ConfigFileData) (current : ConfigPointer) (cs : ConfigStore)
      → (set_config exists f current).1 ≡ ok cs
      → (models : Map ModelPluginConfig) × (check_config exists f ≡ ok tt)
        × (model_configs f.model_plugins [] ≡ ok models)
        × (cs ≡ new_store f models)
        × ((set_config exists f current).0 ≡ some cs)
  unfolding set_config
  set_config_inv f current cs e = ground arith

  new_store-IsValid :
      (f : ConfigFileData) (models : Map ModelPluginConfig)
      → ConfigIsAccepted exists f
      → model_configs f.model_plugins [] ≡ ok models
      → ConfigIsValid (new_store f models)
  unfolding new_store lookup
  new_store-IsValid f models h built = record {
    model_timeout_natural =
        or_default-natural f.model_timeout _ h.model_timeout_natural (omega arith);
    async_timeout_natural =
        or_default-natural f.async_model_timeout _ h.async_timeout_natural (omega arith);
    models_valid =
        model_configs-IsValid exists f.nats_url f.model_plugins [] models h.models_accepted
          (λ id m found. cc) built;
    decisions_valid =
        decision_configs-IsValid f.decision_plugins [] h.decisions_accepted (λ id d found. cc);
  }

  -- A configuration that SetConfig returns is well formed and is the one that is stored.
  pub set_config-IsValid :
      (f : ConfigFileData) (current : ConfigPointer) (cs : ConfigStore)
      → (set_config exists f current).1 ≡ ok cs
      → ((set_config exists f current).0 ≡ some cs) × ConfigIsValid cs
  set_config-IsValid f current cs e =
      let (models, checked, built, same, stored) = set_config_inv f current cs e in
      (
        stored,
        subst ConfigIsValid (sym same)
            (new_store-IsValid f models ((check_config_iff exists f).0 checked) built),
      )

  -- When `SetConfig` returns an error, the stored configuration is the one from before.
  pub set_config-keeps :
      (f : ConfigFileData) (current : ConfigPointer) (e : Error)
      → (set_config exists f current).1 ≡ err e
      → (set_config exists f current).0 ≡ current
  unfolding set_config
  set_config-keeps f current e h = ground arith
