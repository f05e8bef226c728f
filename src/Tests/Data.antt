-- ===== src/Tests/Data.antt =====
-- The data of the tests: a configuration with a sync, an async and a decision plugin.
use mod_sec_intl_wace_lib.Base.{
  Bool, List, String, [], codes, false, none, ok, pos, some, true, ◌∷◌,
}
use mod_sec_intl_wace_lib.WaceApi.{HttpPayload, WafData}
use mod_sec_intl_wace_lib.ConfigStore.Defs.{
  ConfigFileData, ConfigFileDecisionPlugin, ConfigFileModelPlugin, ConfigStore,
  DecisionPluginConfig, ModelPluginConfig, TrainingData,
}
use mod_sec_intl_wace_lib.ConfigStore.SetConfig.{
  default_async_model_timeout, default_credential_headers, default_model_timeout,
}
use mod_sec_intl_wace_lib.PluginManager.Tx.{Store}
use mod_sec_intl_wace_lib.PluginManager.Process.{DecisionPluginData, ModelPluginData, Plugins}

-- Every path exists.
abbrev pub anywhere : String → Bool
anywhere path = true

abbrev pub two_samples : TrainingData
two_samples = record {
  min_samples = pos 1;
  max_samples = pos 2;
  result_file_path = "results";
  status_file_path = "status";
  status_update_interval = pos 1;
}

abbrev pub trivial_file : ConfigFileModelPlugin
trivial_file = record {
  id = "trivial";
  path = "trivial.so";
  params = [];
  plugin_type = "RequestHeaders";
  async = false;
  remote = false;
  training = false;
  training_data = two_samples;
  sanitize = true;
  timeout = pos 0;
}

abbrev pub queued_file : ConfigFileModelPlugin
queued_file = record trivial_file { id = "queued"; async = true; sanitize = false }

abbrev pub simple_file : ConfigFileDecisionPlugin
simple_file = record {
  id = "simple";
  path = "simple.so";
  params = [];
  model_weights = [];
  waf_weight = 0;
  training = false;
  training_data = two_samples;
  timeout = pos 5;
}

abbrev pub file : ConfigFileData
file = record {
  model_plugins = trivial_file ∷ queued_file ∷ [];
  decision_plugins = simple_file ∷ [];
  nats_url = "localhost";
  credential_headers = none;
  model_timeout = none;
  async_model_timeout = none;
}

-- Its model needs NATS, and no address is given.
abbrev pub bad_file : ConfigFileData
bad_file = record file { nats_url = "" }

abbrev pub config_of : ConfigFileModelPlugin → ModelPluginConfig
config_of m = record {
  id = m.id;
  path = m.path;
  params = m.params;
  plugin_type = pos 0;
  async = m.async;
  remote = m.remote;
  training = m.training;
  training_data = m.training_data;
  sanitize = m.sanitize;
  timeout = m.timeout;
}

abbrev pub simple_config : DecisionPluginConfig
simple_config = record {
  id = "simple";
  path = "simple.so";
  params = [];
  training = false;
  training_data = two_samples;
  model_weights = [];
  waf_weight = 0;
  timeout = pos 5;
}

abbrev pub store : ConfigStore
store = record {
  model_plugins = ("trivial", config_of trivial_file) ∷ ("queued", config_of queued_file) ∷ [];
  decision_plugins = ("simple", simple_config) ∷ [];
  nats_url = "localhost";
  application_id = "";
  credential_headers = default_credential_headers;
  model_timeout = default_model_timeout;
  async_model_timeout = default_async_model_timeout;
}

-- A request with a password in its body.
abbrev pub payload : HttpPayload
payload = record {
  uri = codes "/login?user=a";
  method = codes "POST";
  http_version = codes "HTTP/1.1";
  request_headers = (record { key = codes "Authorization"; value = codes "Basic x" }) ∷ [];
  request_body = codes "password=abc&x=1";
  response_protocol = [];
  response_code = pos 0;
  response_headers = [];
  response_body = [];
}

-- Every plugin finds an attack and blocks.
abbrev pub strict : Plugins
strict = record {
  run = λ h ctx input. (record { prob_attack = 1; value = 7 }, none);
  decide = λ h ctx input. ok (record { block = true; value = 7 });
}

abbrev pub loaded_models : List (String × ModelPluginData)
loaded_models =
    (
      "trivial",
      record {
        plugin_type = pos 0;
        model_plugin = 3;
        training = none;
        process_handler = none;
        results_handler = none;
      },
    )
    ∷ []

abbrev pub loaded_decisions : List (String × DecisionPluginData)
loaded_decisions = ("simple", record { decision_plugin = 4; training = none }) ∷ []

abbrev pub waf : WafData
waf = record { scores = []; rules = [] }

-- One open transaction, with a channel for the sync models of its request headers.
abbrev pub open_store : Store
open_store = record {
  sync_txs = ("tx", 0) ∷ [];
  sync_heap =
      (record { results = []; channels = some 0 ∷ none ∷ none ∷ none ∷ none ∷ none ∷ none ∷ [] })
      ∷ [];
  async = record { txs = []; heap = [] };
  chans = (record { capacity = 1; buffer = [] }) ∷ [];
}

abbrev pub idle_store : Store
idle_store = record {
  sync_txs = [];
  sync_heap = [];
  async = record { txs = []; heap = [] };
  chans = [];
}
