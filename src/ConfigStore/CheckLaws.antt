-- ===== src/ConfigStore/CheckLaws.antt =====
-- configstore/configstore.go, what `checkConfig` accepts, stated apart from its order of tests.
use mod_sec_intl_wace_lib.Base.{
  =ₛ_iff, >>-eq-ok, All, Bool, Error, List, Option, String, [], arith, false,
  negative_async_timeout, negative_model_timeout, none, ok, pos, refl, some, true, ◌&&◌, ◌<ℤ◌, ◌||◌,
  ◌↔◌, ◌∷◌, ◌≡◌, ◌≢◌, ◌≤ℤ◌,
}
use mod_sec_intl_wace_lib.ConfigStore.Defs.{
  ConfigFileData, ConfigFileDecisionPlugin, ConfigFileModelPlugin, Duration, TrainingData,
}
use mod_sec_intl_wace_lib.ConfigStore.Check.{
  bad_counts, check_config, check_decision, check_decisions, check_model, check_models,
  check_timeout,
}

-- The sample counts of a plugin in training.
pub record IsGoodCounts (td : TrainingData) : Type 0 where
  pub max_positive : pos 0 <ℤ td.max_samples
  pub min_natural : pos 0 ≤ℤ td.min_samples
  pub min_le_max : td.min_samples ≤ℤ td.max_samples
  pub interval_le_max : td.status_update_interval ≤ℤ td.max_samples

abbrev pub IsTimeout : Option Duration → Type 0
IsTimeout none = Unit
IsTimeout (some d) = pos 0 ≤ℤ d

module _ (exists : String → Bool) where
  pub record ModelIsAccepted (nats_url : String) (m : ConfigFileModelPlugin) : Type 0 where
    pub path_given : m.path ≢ ""
    pub path_exists : exists m.path ≡ true
    pub type_given : m.plugin_type ≢ ""
    pub timeout_natural : pos 0 ≤ℤ m.timeout
    pub training_is_local : m.training ≡ true → (m.async ≡ false) × (m.remote ≡ false)
    pub nats_given : (m.async || m.remote) ≡ true → nats_url ≢ ""
    pub counts_good : m.training ≡ true → IsGoodCounts m.training_data

  pub record DecisionIsAccepted (d : ConfigFileDecisionPlugin) : Type 0 where
    pub path_given : d.path ≢ ""
    pub path_exists : exists d.path ≡ true
    pub timeout_natural : pos 0 ≤ℤ d.timeout
    pub counts_good : d.training ≡ true → IsGoodCounts d.training_data

  pub record ConfigIsAccepted (c : ConfigFileData) : Type 0 where
    pub model_timeout_natural : IsTimeout c.model_timeout
    pub async_timeout_natural : IsTimeout c.async_model_timeout
    pub models_accepted : All (ModelIsAccepted c.nats_url) c.model_plugins
    pub decisions_accepted : All DecisionIsAccepted c.decision_plugins

bad_counts-false : (td : TrainingData) → bad_counts td ≡ false → IsGoodCounts td
unfolding bad_counts
bad_counts-false td h = record {
  max_positive = ground arith;
  min_natural = ground arith;
  min_le_max = ground arith;
  interval_le_max = ground arith;
}

bad_counts-good : (td : TrainingData) → IsGoodCounts td → bad_counts td ≡ false
unfolding bad_counts
bad_counts-good td h = ground arith

-- The test of the counts is made in training only.
training_counts-good :
    (training : Bool) (td : TrainingData)
    → (training ≡ true → IsGoodCounts td)
    → (training && bad_counts td) ≡ false
training_counts-good true td h = bad_counts-good td (h refl)
training_counts-good false td h = refl

check_timeout-ok :
    (o : Option Duration) (e : Duration → Error) → check_timeout o e ≡ ok tt → IsTimeout o
unfolding check_timeout
check_timeout-ok none e h = tt
check_timeout-ok (some d) e h = ground arith

check_timeout-good :
    (o : Option Duration) (e : Duration → Error) → IsTimeout o → check_timeout o e ≡ ok tt
unfolding check_timeout
check_timeout-good none e h = refl
check_timeout-good (some d) e h = ground arith

module _ (exists : String → Bool) where
  check_model-ok :
      (nats_url : String) (m : ConfigFileModelPlugin)
      → check_model exists nats_url m ≡ ok tt
      → ModelIsAccepted exists nats_url m
  unfolding check_model
  check_model-ok nats_url m h = record {
    path_given = ground (arith, =ₛ_iff m.path "");
    path_exists = ground arith;
    type_given = ground (arith, =ₛ_iff m.plugin_type "");
    timeout_natural = ground arith;
    training_is_local = ground arith;
    nats_given = ground (arith, =ₛ_iff nats_url "");
    counts_good = λ t. bad_counts-false m.training_data (ground arith);
  }

  check_model-good :
      (nats_url : String) (m : ConfigFileModelPlugin)
      → ModelIsAccepted exists nats_url m
      → check_model exists nats_url m ≡ ok tt
  unfolding check_model
  check_model-good nats_url m h = ground (
    arith,
    =ₛ_iff m.path "",
    =ₛ_iff m.plugin_type "",
    =ₛ_iff nats_url "",
    training_counts-good m.training m.training_data h.counts_good,
  )

  check_decision-ok :
      (d : ConfigFileDecisionPlugin) → check_decision exists d ≡ ok tt → DecisionIsAccepted exists d
  unfolding check_decision
  check_decision-ok d h = record {
    path_given = ground (arith, =ₛ_iff d.path "");
    path_exists = ground arith;
    timeout_natural = ground arith;
    counts_good = λ t. bad_counts-false d.training_data (ground arith);
  }

  check_decision-good :
      (d : ConfigFileDecisionPlugin) → DecisionIsAccepted exists d → check_decision exists d ≡ ok tt
  unfolding check_decision
  check_decision-good d h =
      ground
        (arith, =ₛ_iff d.path "", training_counts-good d.training d.training_data h.counts_good)

  -- The first step of a chain that succeeds has succeeded, and so has the rest.
  check_models-ok :
      (nats_url : String) (ms : List ConfigFileModelPlugin)
      → check_models exists nats_url ms ≡ ok tt
      → All (ModelIsAccepted exists nats_url) ms
  unfolding check_models
  check_models-ok nats_url [] h = tt
  check_models-ok nats_url (m ∷ ms) h =
      let (first, rest) = >>-eq-ok (check_model exists nats_url m) _ h in
      (check_model-ok nats_url m first, check_models-ok nats_url ms rest)

  check_models-good :
      (nats_url : String) (ms : List ConfigFileModelPlugin)
      → All (ModelIsAccepted exists nats_url) ms
      → check_models exists nats_url ms ≡ ok tt
  unfolding check_models
  check_models-good nats_url [] h = refl
  check_models-good nats_url (m ∷ ms) h =
      rw (check_model-good nats_url m h.0) (check_models-good nats_url ms h.1)

  check_decisions-ok :
      (ds : List ConfigFileDecisionPlugin)
      → check_decisions exists ds ≡ ok tt
      → All (DecisionIsAccepted exists) ds
  unfolding check_decisions
  check_decisions-ok [] h = tt
  check_decisions-ok (d ∷ ds) h =
      let (first, rest) = >>-eq-ok (check_decision exists d) _ h in
      (check_decision-ok d first, check_decisions-ok ds rest)

  check_decisions-good :
      (ds : List ConfigFileDecisionPlugin)
      → All (DecisionIsAccepted exists) ds
      → check_decisions exists ds ≡ ok tt
  unfolding check_decisions
  check_decisions-good [] h = refl
  check_decisions-good (d ∷ ds) h = rw (check_decision-good d h.0) (check_decisions-good ds h.1)

  check_config-ok : (c : ConfigFileData) → check_config exists c ≡ ok tt → ConfigIsAccepted exists c
  unfolding check_config
  check_config-ok c h =
      let (one, r1) = >>-eq-ok (check_timeout c.model_timeout negative_model_timeout) _ h in
      let (two, r2) = >>-eq-ok (check_timeout c.async_model_timeout negative_async_timeout) _ r1 in
      let (three, four) = >>-eq-ok (check_models exists c.nats_url c.model_plugins) _ r2 in
      record {
        model_timeout_natural = check_timeout-ok c.model_timeout _ one;
        async_timeout_natural = check_timeout-ok c.async_model_timeout _ two;
        models_accepted = check_models-ok c.nats_url c.model_plugins three;
        decisions_accepted = check_decisions-ok c.decision_plugins four;
      }

  check_config-good :
      (c : ConfigFileData) → ConfigIsAccepted exists c → check_config exists c ≡ ok tt
  unfolding check_config
  check_config-good c h =
      rw
        (
          check_timeout-good c.model_timeout negative_model_timeout h.model_timeout_natural,
          check_timeout-good c.async_model_timeout negative_async_timeout h.async_timeout_natural,
          check_models-good c.nats_url c.model_plugins h.models_accepted,
        )
        (check_decisions-good c.decision_plugins h.decisions_accepted)

  -- checkConfig accepts a file exactly when its timeouts are not negative and every plugin has an
  -- existing path, a timeout that is not negative and, in training, good sample counts, and every
  -- model also has a type, is in training only if neither async nor remote, and is async or remote
  -- only if a NATS address is set.
  pub check_config_iff :
      (c : ConfigFileData) → (check_config exists c ≡ ok tt) ↔ ConfigIsAccepted exists c
  check_config_iff c = (check_config-ok c, check_config-good c)
