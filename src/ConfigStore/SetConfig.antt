-- ===== src/ConfigStore/SetConfig.antt =====
-- configstore/configstore.go, SetConfig: the stored configuration is built from a checked file and
-- replaces the current one.
use mod_sec_intl_wace_lib.Base.{
  Bool, List, Map, Option, Result, String, [], codes, div10, eqb_int, err, if◌then◌else◌, insert,
  max_int, none, ok, pos, some, ℕ, ◌>>=◌, ◌∷◌,
}
use mod_sec_intl_wace_lib.ConfigStore.PluginType.{string_to_plugin_type}
use mod_sec_intl_wace_lib.ConfigStore.Defs.{
  ConfigFileData, ConfigFileDecisionPlugin, ConfigFileModelPlugin, ConfigPointer, ConfigStore,
  DecisionPluginConfig, Duration, ModelPluginConfig, TrainingData,
}
use mod_sec_intl_wace_lib.ConfigStore.Check.{check_config}

-- A status update interval of 0 becomes a tenth of the samples, and at least 1.
unfoldable pub default_interval : TrainingData → TrainingData
unfolding eqb_int
default_interval td =
    if eqb_int td.status_update_interval (pos 0)
    then record td { status_update_interval = max_int (pos 1) (div10 td.max_samples) }
    else td

-- One round of the loop over the model plugins.
unfoldable pub model_config : ConfigFileModelPlugin → Result ModelPluginConfig
model_config m = do
  t ← string_to_plugin_type m.plugin_type
  ok (record {
    id = m.id;
    path = m.path;
    params = m.params;
    plugin_type = t;
    async = m.async;
    remote = m.remote;
    training = m.training;
    training_data = default_interval m.training_data;
    sanitize = m.sanitize;
    timeout = m.timeout;
  })

unfoldable pub model_configs :
    List ConfigFileModelPlugin → Map ModelPluginConfig → Result (Map ModelPluginConfig)
model_configs [] configs = ok configs
model_configs (m ∷ ms) configs = do c ← model_config m; model_configs ms (insert c.id c configs)

-- One round of the loop over the decision plugins.
unfoldable pub decision_config : ConfigFileDecisionPlugin → DecisionPluginConfig
decision_config d = record {
  id = d.id;
  path = d.path;
  params = d.params;
  training = d.training;
  training_data = default_interval d.training_data;
  model_weights = d.model_weights;
  waf_weight = d.waf_weight;
  timeout = d.timeout;
}

unfoldable pub decision_configs :
    List ConfigFileDecisionPlugin → Map DecisionPluginConfig → Map DecisionPluginConfig
decision_configs [] configs = configs
decision_configs (d ∷ ds) configs = decision_configs ds (insert d.id (decision_config d) configs)

-- `defaultCredentialHeaders`
abbrev pub default_credential_headers : List (List ℕ)
default_credential_headers = codes "authorization" ∷ codes "cookie" ∷ codes "set-cookie" ∷ []

-- `DefaultModelTimeout` is 200 ms, `DefaultAsyncModelTimeout` is 60 s.
abbrev pub default_model_timeout : Duration
default_model_timeout = pos 200_000_000

abbrev pub default_async_model_timeout : Duration
default_async_model_timeout = pos 60_000_000_000

-- A value of the file, or the default where it is not set.
unfoldable pub or_default {ℓ} : {A : Type ℓ} → Option A → A → A
or_default none d = d
or_default (some v) d = v

-- The new `ConfigStore`, from the file and its converted models. `ApplicationId` is never set.
unfoldable pub new_store : ConfigFileData → Map ModelPluginConfig → ConfigStore
new_store f models = record {
  model_plugins = models;
  decision_plugins = decision_configs f.decision_plugins [];
  nats_url = f.nats_url;
  application_id = "";
  credential_headers = or_default f.credential_headers default_credential_headers;
  model_timeout = or_default f.model_timeout default_model_timeout;
  async_model_timeout = or_default f.async_model_timeout default_async_model_timeout;
}

-- `SetConfig`: the pointer afterwards, and what is returned.
unfoldable pub set_config :
    (String → Bool) → ConfigFileData → ConfigPointer → ConfigPointer × Result ConfigStore
set_config exists f current = elim (check_config exists f) [
  | err e ↦ (current, err e)
  | ok _ ↦ elim (model_configs f.model_plugins []) [
    | err e ↦ (current, err e)
    | ok models ↦ (some (new_store f models), ok (new_store f models))
  ]
]
