-- ===== src/ConfigStore.antt =====
-- configstore/configstore.go: the plugin types, the configuration file and the stored configuration.
pub mod PluginType
pub mod Defs
pub mod Check
pub mod SetConfig
pub mod CheckLaws
pub mod SetConfigLaws
pub mod LookupLaws
