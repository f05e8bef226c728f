-- ===== src/Tests/Config.antt =====
-- ConfigStore at concrete inputs.
use mod_sec_intl_wace_lib.Base.{
  err, insert, lookup, nats_url_needed, none, ok, pos, refl, some, true, ◌↔◌, ◌≡◌,
}
use mod_sec_intl_wace_lib.ConfigStore.PluginType.{
  is_valid, string_to_plugin_type, string_to_plugin_type_iff, type_string,
}
use mod_sec_intl_wace_lib.Tests.Data.{anywhere, bad_file, file, store}
use mod_sec_intl_wace_lib.ConfigStore.Check.{check_config, check_decision, check_model}
use mod_sec_intl_wace_lib.ConfigStore.SetConfig.{
  decision_config, decision_configs, default_interval, model_config, model_configs, new_store,
  or_default, set_config,
}
use mod_sec_intl_wace_lib.ConfigStore.CheckLaws.{ConfigIsAccepted, check_config_iff}
use mod_sec_intl_wace_lib.ConfigStore.LookupLaws.{Overrides, last_model, lookup-set_config}
use mod_sec_intl_wace_lib.ConfigStore.SetConfigLaws.{ConfigIsValid, set_config-IsValid}

file-accepted : check_config anywhere file ≡ ok tt
unfolding check_config check_model check_decision
file-accepted = refl

file-stored : (set_config anywhere file none).1 ≡ ok store
unfolding set_config check_config check_model check_decision model_configs model_config
    string_to_plugin_type new_store insert decision_configs or_default default_interval
    decision_config
file-stored = refl

bad_file-refused : (set_config anywhere bad_file (some store)).1 ≡ err (nats_url_needed "queued")
unfolding set_config check_config check_model
bad_file-refused = refl

check_config_iff_example : (check_config anywhere file ≡ ok tt) ↔ ConfigIsAccepted anywhere file
check_config_iff_example = check_config_iff anywhere file

set_config-IsValid_example : ((set_config anywhere file none).0 ≡ some store) × ConfigIsValid store
set_config-IsValid_example = set_config-IsValid anywhere file none store file-stored

lookup-set_config_example :
    Overrides (last_model "queued" file.model_plugins) none (lookup "queued" store.model_plugins)
lookup-set_config_example = lookup-set_config anywhere file none store "queued" file-stored

string_to_plugin_type_iff_example :
    (string_to_plugin_type "AllResponse" ≡ ok (pos 5))
    ↔ ((is_valid (pos 5) ≡ true) × (type_string (pos 5) ≡ "AllResponse"))
string_to_plugin_type_iff_example = string_to_plugin_type_iff "AllResponse" (pos 5)
