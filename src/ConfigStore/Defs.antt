-- ===== src/ConfigStore/Defs.antt =====
-- configstore/configstore.go, the data: what the file gives, what is stored, and the questions that
-- the other packages ask of the stored configuration.
use mod_sec_intl_wace_lib.Base.{
  Bool, List, Map, Option, Result, String, config_not_loaded, err, false, lookup, none, ok, pos,
  some, ℕ, ℤ,
}
use mod_sec_intl_wace_lib.ConfigStore.PluginType.{ModelPluginType}

-- `time.Duration`, in nanoseconds.
abbrev pub Duration : Type 0
Duration = ℤ

-- A `float64`, by its 64 bits: weights and probabilities are carried and never computed with.
abbrev pub Float64 : Type 0
Float64 = ℕ

pub record TrainingData : Type 0 where
  pub min_samples : ℤ
  pub max_samples : ℤ
  pub result_file_path : String
  pub status_file_path : String
  pub status_update_interval : ℤ

-- A plugin of the configuration file.
pub record ConfigFileModelPlugin : Type 0 where
  pub id : String
  pub path : String
  pub params : Map String
  pub plugin_type : String
  pub async : Bool
  pub remote : Bool
  pub training : Bool
  pub training_data : TrainingData
  pub sanitize : Bool
  pub timeout : Duration

pub record ConfigFileDecisionPlugin : Type 0 where
  pub id : String
  pub path : String
  pub params : Map String
  pub model_weights : Map Float64
  pub waf_weight : Float64
  pub training : Bool
  pub training_data : TrainingData
  pub timeout : Duration

-- `none` stands for a nil slice or pointer.
pub record ConfigFileData : Type 0 where
  pub model_plugins : List ConfigFileModelPlugin
  pub decision_plugins : List ConfigFileDecisionPlugin
  pub nats_url : String
  pub credential_headers : Option (List (List ℕ))
  pub model_timeout : Option Duration
  pub async_model_timeout : Option Duration

-- A plugin of the stored configuration.
pub record ModelPluginConfig : Type 0 where
  pub id : String
  pub path : String
  pub params : Map String
  pub plugin_type : ModelPluginType
  pub async : Bool
  pub remote : Bool
  pub training : Bool
  pub training_data : TrainingData
  pub sanitize : Bool
  pub timeout : Duration

pub record DecisionPluginConfig : Type 0 where
  pub id : String
  pub path : String
  pub params : Map String
  pub training : Bool
  pub training_data : TrainingData
  pub model_weights : Map Float64
  pub waf_weight : Float64
  pub timeout : Duration

pub record ConfigStore : Type 0 where
  pub model_plugins : Map ModelPluginConfig
  pub decision_plugins : Map DecisionPluginConfig
  pub nats_url : String
  pub application_id : String
  pub credential_headers : List (List ℕ)
  pub model_timeout : Duration
  pub async_model_timeout : Duration

-- `IsAsync`, `IsRemote`, `IsInTraining`, `ShouldSanitize`: a missing plugin reads as the zero value.
unfoldable pub is_async : ConfigStore → String → Bool
is_async c id = elim (lookup id c.model_plugins) [ none ↦ false | some m ↦ m.async ]

unfoldable pub is_remote : ConfigStore → String → Bool
is_remote c id = elim (lookup id c.model_plugins) [ none ↦ false | some m ↦ m.remote ]

unfoldable pub is_in_training : ConfigStore → String → Bool
is_in_training c id = elim (lookup id c.model_plugins) [ none ↦ false | some m ↦ m.training ]

unfoldable pub should_sanitize : ConfigStore → String → Bool
should_sanitize c id = elim (lookup id c.model_plugins) [ none ↦ false | some m ↦ m.sanitize ]

-- `conf.ModelPlugins[id].Timeout`
unfoldable pub model_plugin_timeout : ConfigStore → String → Duration
model_plugin_timeout c id = elim (lookup id c.model_plugins) [ none ↦ pos 0 | some m ↦ m.timeout ]

-- `IsDecisionInTraining`
unfoldable pub is_decision_in_training : ConfigStore → String → Bool
is_decision_in_training c id = elim (lookup id c.decision_plugins) [
  | none ↦ false
  | some d ↦ d.training
]

-- The atomic pointer `config`; `none` is nil.
abbrev pub ConfigPointer : Type 0
ConfigPointer = Option ConfigStore

-- `Get`
unfoldable pub get : ConfigPointer → Result ConfigStore
get none = err config_not_loaded
get (some c) = ok c

-- `Clean`
unfoldable pub clean : ConfigPointer → ConfigPointer
clean c = none
