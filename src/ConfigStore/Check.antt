-- ===== src/ConfigStore/Check.antt =====
-- configstore/configstore.go, checkConfig. `exists` is the file system: whether `os.Stat` of a path
-- succeeds.
use mod_sec_intl_wace_lib.Base.{
  Bool, Error, List, Option, Result, String, [], bad_sample_counts, empty_path, empty_plugin_type,
  guard, leb_int, ltb_int, missing_path, nats_url_needed, negative_async_timeout,
  negative_model_timeout, negative_timeout, none, not, ok, pos, some, training_and_async,
  training_and_remote, ◌&&◌, ◌=ₛ◌, ◌>>◌, ◌||◌, ◌∷◌,
}
use mod_sec_intl_wace_lib.ConfigStore.Defs.{
  ConfigFileData, ConfigFileDecisionPlugin, ConfigFileModelPlugin, Duration, TrainingData,
}

-- The test of the sample counts of a plugin in training, of models and of decisions alike.
unfoldable pub bad_counts : TrainingData → Bool
unfolding leb_int ltb_int
bad_counts td =
    leb_int td.max_samples (pos 0)
    || ltb_int td.min_samples (pos 0)
    || ltb_int td.max_samples td.min_samples
    || ltb_int td.max_samples td.status_update_interval

-- The tests of one timeout of the file, when it is set.
unfoldable pub check_timeout : Option Duration → (Duration → Error) → Result (Unit {0})
unfolding ltb_int
check_timeout none e = ok tt
check_timeout (some d) e = guard (not (ltb_int d (pos 0))) (e d)

module _ (exists : String → Bool) where
  -- One round of the loop over the model plugins.
  unfoldable pub check_model : String → ConfigFileModelPlugin → Result (Unit {0})
  unfolding ltb_int
  check_model nats_url m = do
    guard (not (m.path =ₛ "")) (empty_path m.id)
    guard (exists m.path) (missing_path m.id)
    guard (not (m.plugin_type =ₛ "")) (empty_plugin_type m.id)
    guard (not (ltb_int m.timeout (pos 0))) (negative_timeout m.id)
    guard (not (m.training && m.async)) (training_and_async m.id)
    guard (not (m.training && m.remote)) (training_and_remote m.id)
    guard (not ((m.async || m.remote) && nats_url =ₛ "")) (nats_url_needed m.id)
    guard (not (m.training && bad_counts m.training_data)) (bad_sample_counts m.id)

  -- One round of the loop over the decision plugins.
  unfoldable pub check_decision : ConfigFileDecisionPlugin → Result (Unit {0})
  unfolding ltb_int
  check_decision d = do
    guard (not (d.path =ₛ "")) (empty_path d.id)
    guard (exists d.path) (missing_path d.id)
    guard (not (ltb_int d.timeout (pos 0))) (negative_timeout d.id)
    guard (not (d.training && bad_counts d.training_data)) (bad_sample_counts d.id)

  unfoldable pub check_models : String → List ConfigFileModelPlugin → Result (Unit {0})
  check_models nats_url [] = ok tt
  check_models nats_url (m ∷ ms) = do check_model nats_url m; check_models nats_url ms

  unfoldable pub check_decisions : List ConfigFileDecisionPlugin → Result (Unit {0})
  check_decisions [] = ok tt
  check_decisions (d ∷ ds) = do check_decision d; check_decisions ds

  -- `checkConfig`
  unfoldable pub check_config : ConfigFileData → Result (Unit {0})
  unfolding check_timeout check_models check_decisions
  check_config c = do
    check_timeout c.model_timeout negative_model_timeout
    check_timeout c.async_model_timeout negative_async_timeout
    check_models c.nats_url c.model_plugins
    check_decisions c.decision_plugins
