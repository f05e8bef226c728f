-- ===== src/ConfigStore/LookupLaws.antt =====
-- configstore/configstore.go, which plugin of the file a stored configuration has under an identifier.
use mod_sec_intl_wace_lib.Base.{
  >>=-eq-ok, Bool, Bool-cases, List, Map, Option, String, [], arith, if◌then◌else◌, inl, inr,
  insert, lookup, lookup-insert, none, ok, some, subst, sym, ◌=ₛ◌, ◌∷◌, ◌≡◌,
}
use mod_sec_intl_wace_lib.ConfigStore.PluginType.{string_to_plugin_type}
use mod_sec_intl_wace_lib.ConfigStore.Defs.{
  ConfigFileData, ConfigFileModelPlugin, ConfigPointer, ConfigStore, ModelPluginConfig,
}
use mod_sec_intl_wace_lib.ConfigStore.SetConfig.{model_config, model_configs, new_store, set_config}
use mod_sec_intl_wace_lib.ConfigStore.SetConfigLaws.{set_config_inv}

-- The last model plugin of the file with the identifier `id`.
unfoldable pub last_model : String → List ConfigFileModelPlugin → Option ConfigFileModelPlugin
last_model id [] = none
last_model id (m ∷ ms) = elim (last_model id ms) [
  | some later ↦ some later
  | none ↦ if m.id =ₛ id then some m else none
]

-- What a map of stored models gives for `id`, if the plugin `last` of the file overrides `before`.
abbrev pub Overrides :
    Option ConfigFileModelPlugin → Option ModelPluginConfig → Option ModelPluginConfig → Type 0
Overrides none before after = after ≡ before
Overrides (some m) before after =
    (c : ModelPluginConfig) × (model_config m ≡ ok c) × (after ≡ some c)

model_config-id :
    (m : ConfigFileModelPlugin) (c : ModelPluginConfig) → model_config m ≡ ok c → c.id ≡ m.id
unfolding model_config
model_config-id m c e =
    let (t, read, built) = >>=-eq-ok (string_to_plugin_type m.plugin_type) _ e in ground arith

lookup-model_configs :
    (id : String) (ms : List ConfigFileModelPlugin) (configs result : Map ModelPluginConfig)
    → model_configs ms configs ≡ ok result
    → Overrides (last_model id ms) (lookup id configs) (lookup id result)
unfolding model_configs last_model
lookup-model_configs id [] configs result e = ground arith
lookup-model_configs id (m ∷ ms) configs result e =
    let (c, built, rest) = >>=-eq-ok (model_config m) _ e in
    step (last_model id ms) c built (model_config-id m c built)
      (lookup-model_configs id ms (insert c.id c configs) result rest)
  where
    step :
        (later : Option ConfigFileModelPlugin) (c : ModelPluginConfig)
        → model_config m ≡ ok c
        → c.id ≡ m.id
        → Overrides later (lookup id (insert c.id c configs)) (lookup id result)
        → Overrides
            (elim later [ some l ↦ some l | none ↦ if m.id =ₛ id then some m else none ])
            (lookup id configs)
            (lookup id result)
    step (some l) c built same h = h
    step none c built same h = elim (Bool-cases (m.id =ₛ id)) [
      | inl hit ↦ rw hit (c, built, ground (arith, lookup-insert c.id id c configs))
      | inr miss ↦ rw miss (ground (arith, lookup-insert c.id id c configs))
    ]

module _ (exists : String → Bool) where
  -- A stored configuration has a model plugin under an identifier exactly when the file has one,
  -- and it is the conversion of the last plugin of the file with that identifier.
  pub lookup-set_config :
      (f : ConfigFileData) (current : ConfigPointer) (cs : ConfigStore) (id : String)
      → (set_config exists f current).1 ≡ ok cs
      → Overrides (last_model id f.model_plugins) none (lookup id cs.model_plugins)
  unfolding lookup new_store
  lookup-set_config f current cs id e =
      let (models, checked, built, same, stored) = set_config_inv exists f current cs e in
      subst
        (λ (c : ConfigStore).
          Overrides (last_model id f.model_plugins) none (lookup id c.model_plugins))
        (sym same) (lookup-model_configs id f.model_plugins [] models built)
