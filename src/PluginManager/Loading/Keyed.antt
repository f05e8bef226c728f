-- ===== src/PluginManager/Loading/Keyed.antt =====
-- configstore/configstore.go, SetConfig: the keys of the model plugins, on which loadModelPlugins relies.
use mod_sec_intl_wace_lib.Base.{
  =ₛ_iff, >>=-eq-ok, Bool, Distinct, Distinct-insert, List, Map, String, [], arith, insert, lookup,
  lookup-insert, ok, some, subst, sym, ◌∷◌, ◌≡◌,
}
use mod_sec_intl_wace_lib.ConfigStore.Defs.{
  ConfigFileData, ConfigFileDecisionPlugin, ConfigFileModelPlugin, ConfigPointer, ConfigStore,
  DecisionPluginConfig, ModelPluginConfig,
}
use mod_sec_intl_wace_lib.ConfigStore.SetConfig.{
  decision_config, decision_configs, model_config, model_configs, new_store, set_config,
}
use mod_sec_intl_wace_lib.ConfigStore.SetConfigLaws.{
  ConfigIsValid, set_config-IsValid, set_config_inv,
}

-- A configuration as SetConfig stores it: each plugin stands once, under its own identifier.
abbrev pub IsKeyed : Map ModelPluginConfig → Type 0
IsKeyed plugins =
    Distinct plugins
    × ((id : String) (m : ModelPluginConfig) → lookup id plugins ≡ some m → m.id ≡ id)

pub IsKeyed-rest :
    (k : String) (m : ModelPluginConfig) (rest : Map ModelPluginConfig)
    → IsKeyed ((k, m) ∷ rest)
    → (m.id ≡ k) × IsKeyed rest
unfolding lookup
IsKeyed-rest k m rest ((new, d), h) = (
  h k m (ground (arith, =ₛ_iff k k)),
  (d, λ id m' e. h id m' (ground (arith, =ₛ_iff k id, new, e))),
)

abbrev pub AreKeyed : Map DecisionPluginConfig → Type 0
AreKeyed plugins =
    Distinct plugins
    × ((id : String) (d : DecisionPluginConfig) → lookup id plugins ≡ some d → d.id ≡ id)

pub AreKeyed-rest :
    (k : String) (d : DecisionPluginConfig) (rest : Map DecisionPluginConfig)
    → AreKeyed ((k, d) ∷ rest)
    → (d.id ≡ k) × AreKeyed rest
unfolding lookup
AreKeyed-rest k d rest ((new, u), h) = (
  h k d (ground (arith, =ₛ_iff k k)),
  (u, λ id d' e. h id d' (ground (arith, =ₛ_iff k id, new, e))),
)

-- The loop over the decision plugins enters each under its own identifier.
decision_configs-AreKeyed :
    (ds : List ConfigFileDecisionPlugin) (configs : Map DecisionPluginConfig)
    → AreKeyed configs
    → AreKeyed (decision_configs ds configs)
unfolding decision_configs decision_config
decision_configs-AreKeyed [] configs k = k
decision_configs-AreKeyed (d ∷ ds) configs (u, h) =
    let c = decision_config d in
    decision_configs-AreKeyed ds (insert d.id c configs) (
      Distinct-insert d.id c configs u,
      λ id d' e. ground (arith, h id d', e, lookup-insert d.id id c configs, =ₛ_iff d.id id),
    )

-- The loop of SetConfig over the model plugins enters each once.
model_configs-Distinct :
    (ms : List ConfigFileModelPlugin) (configs : Map ModelPluginConfig)
    (models : Map ModelPluginConfig)
    → Distinct configs
    → model_configs ms configs ≡ ok models
    → Distinct models
unfolding model_configs
model_configs-Distinct [] configs models d e = ground (arith, d)
model_configs-Distinct (m ∷ ms) configs models d e =
    let (c, _, rest) = >>=-eq-ok (model_config m) _ e in
    model_configs-Distinct ms (insert c.id c configs) models (Distinct-insert c.id c configs d) rest

-- The model plugins of every configuration that SetConfig returns.
pub set_config-IsKeyed :
    (exists : String → Bool) (f : ConfigFileData) (current : ConfigPointer) (cs : ConfigStore)
    → (set_config exists f current).1 ≡ ok cs
    → IsKeyed cs.model_plugins
unfolding new_store
set_config-IsKeyed exists f current cs e =
    let (models, _, built, same, _) = set_config_inv exists f current cs e in
    let (_, valid) = set_config-IsValid exists f current cs e in
    (
      subst (λ (c : ConfigStore). Distinct c.model_plugins) (sym same)
          (model_configs-Distinct f.model_plugins [] models tt built),
      λ id m found. (valid.models_valid id m found).0,
    )

-- And its decision plugins.
pub set_config-AreKeyed :
    (exists : String → Bool) (f : ConfigFileData) (current : ConfigPointer) (cs : ConfigStore)
    → (set_config exists f current).1 ≡ ok cs
    → AreKeyed cs.decision_plugins
unfolding new_store lookup
set_config-AreKeyed exists f current cs e =
    let (_, _, _, same, _) = set_config_inv exists f current cs e in
    subst (λ (c : ConfigStore). AreKeyed c.decision_plugins) (sym same)
      (decision_configs-AreKeyed f.decision_plugins [] (tt, λ id d h. ground (arith, h)))

-- A configuration as SetConfig returns it.
abbrev pub IsStored : ConfigStore → Type 0
IsStored cs = ConfigIsValid cs × IsKeyed cs.model_plugins × AreKeyed cs.decision_plugins
