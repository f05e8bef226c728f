-- ===== src/PluginManager/Loaded.antt =====
-- pluginmanager/metrics.go: the modes of the plugins, and how many of each are loaded.
use mod_sec_intl_wace_lib.Base.{
  Bool, Map, Option, String, [], ap, arith, if◌then◌else◌, length, none, not, some, suc, sym, ℕ,
  ◌&&◌, ◌+◌, ◌||◌, ◌∙◌, ◌∷◌, ◌≡◌,
}
use mod_sec_intl_wace_lib.ConfigStore.Defs.{
  ConfigPointer, ConfigStore, is_async, is_decision_in_training, is_in_training, is_remote,
}
use mod_sec_intl_wace_lib.PluginManager.Process.{DecisionPluginData, ModelPluginData}

-- The values of the attribute `plugin.mode`.
pub data Mode : Type 0 where
  sync async remote training production : Mode

-- `modelMode`
unfoldable pub model_mode : ConfigStore → String → Mode
model_mode conf id =
    if is_async conf id
    then async
    else if is_in_training conf id
    then training
    else if is_remote conf id
    then remote
    else sync

-- `decisionMode`
unfoldable pub decision_mode : ConfigStore → String → Mode
decision_mode conf id = if is_decision_in_training conf id then training else production

pub Mode-discrete : Discrete Mode
Mode-discrete = hlevel

-- The counts of one kind of plugin: one place for each mode.
pub record Counts : Type 0 where
  pub sync_count : ℕ
  pub async_count : ℕ
  pub remote_count : ℕ
  pub training_count : ℕ
  pub production_count : ℕ

abbrev pub no_counts : Counts
no_counts = record {
  sync_count = 0;
  async_count = 0;
  remote_count = 0;
  training_count = 0;
  production_count = 0;
}

-- `counts[key]++`
unfoldable pub count_mode : Mode → Counts → Counts
count_mode sync c = record c { sync_count = c.sync_count + 1 }
count_mode async c = record c { async_count = c.async_count + 1 }
count_mode remote c = record c { remote_count = c.remote_count + 1 }
count_mode training c = record c { training_count = c.training_count + 1 }
count_mode production c = record c { production_count = c.production_count + 1 }

-- One loop of `countLoaded`.
unfoldable pub count_all {ℓ} : {V : Type ℓ} → (String → Mode) → Map V → Counts → Counts
unfolding count_mode
count_all mode [] c = c
count_all mode ((id, p) ∷ loaded) c = count_all mode loaded (count_mode (mode id) c)

-- `countLoaded`: the counts of the model plugins and of the decision plugins, or nil without a
-- configuration.
unfoldable pub count_loaded :
    ConfigPointer → Map ModelPluginData → Map DecisionPluginData → Option (Counts × Counts)
unfolding count_all model_mode decision_mode
count_loaded none models decisions = none
count_loaded (some conf) models decisions = some (
  count_all (model_mode conf) models no_counts,
  count_all (decision_mode conf) decisions no_counts,
)

abbrev pub total : Counts → ℕ
total c = c.sync_count + c.async_count + c.remote_count + c.training_count + c.production_count

-- How many of the loaded plugins satisfy a test on their identifiers.
unfoldable pub count_where {ℓ} : {V : Type ℓ} → (String → Bool) → Map V → ℕ
count_where p [] = 0
count_where p ((id, v) ∷ loaded) =
    let rest = count_where p loaded in if p id then suc rest else rest

-- The counts of model plugins, kind by kind, by what is configured, on top of `c`.
unfoldable pub models_due {ℓ} : {V : Type ℓ} → ConfigStore → Map V → Counts → Counts
models_due conf loaded c = record {
  sync_count =
      c.sync_count
      + count_where (λ id. not (is_async conf id || (is_in_training conf id || is_remote conf id)))
          loaded;
  async_count = c.async_count + count_where (is_async conf) loaded;
  remote_count =
      c.remote_count
      + count_where (λ id. is_remote conf id && not (is_async conf id || is_in_training conf id))
          loaded;
  training_count =
      c.training_count
      + count_where (λ id. is_in_training conf id && not (is_async conf id)) loaded;
  production_count = c.production_count;
}

unfoldable pub decisions_due {ℓ} : {V : Type ℓ} → ConfigStore → Map V → Counts → Counts
decisions_due conf loaded c = record c {
  training_count = c.training_count + count_where (is_decision_in_training conf) loaded;
  production_count =
      c.production_count + count_where (λ id. not (is_decision_in_training conf id)) loaded;
}

count_all-models_due {ℓ} :
    {V : Type ℓ} (conf : ConfigStore) (loaded : Map V) (c : Counts)
    → count_all (model_mode conf) loaded c ≡ models_due conf loaded c
unfolding count_all count_mode model_mode models_due count_where
count_all-models_due conf [] c = ground arith
count_all-models_due conf ((id, v) ∷ loaded) c =
    count_all-models_due conf loaded (count_mode (model_mode conf id) c) ∙ ground arith

count_all-decisions_due {ℓ} :
    {V : Type ℓ} (conf : ConfigStore) (loaded : Map V) (c : Counts)
    → count_all (decision_mode conf) loaded c ≡ decisions_due conf loaded c
unfolding count_all count_mode decision_mode decisions_due count_where
count_all-decisions_due conf [] c = ground arith
count_all-decisions_due conf ((id, v) ∷ loaded) c =
    count_all-decisions_due conf loaded (count_mode (decision_mode conf id) c) ∙ ground arith

total-count_mode : (m : Mode) (c : Counts) → total (count_mode m c) ≡ total c + 1
unfolding count_mode
total-count_mode sync c = omega arith
total-count_mode async c = omega arith
total-count_mode remote c = omega arith
total-count_mode training c = omega arith
total-count_mode production c = omega arith

total-count_all {ℓ} :
    {V : Type ℓ} (mode : String → Mode) (loaded : Map V) (c : Counts)
    → total (count_all mode loaded c) ≡ total c + length loaded
unfolding count_all
total-count_all mode [] c = omega arith
total-count_all mode ((id, p) ∷ loaded) c =
    omega
      (arith, total-count_all mode loaded (count_mode (mode id) c), total-count_mode (mode id) c)

-- With a configuration, the four series of model plugins count the loaded ones by what is
-- configured: those that are async, those in training that are not async, those that are remote and
-- neither of these, and those that are none of the three. The two series of decision plugins count
-- those in training and the others. The series of each kind add up to the number of its loaded
-- plugins.
pub count_loaded-total :
    (conf : ConfigStore) (models : Map ModelPluginData) (decisions : Map DecisionPluginData)
    → let cm = models_due conf models no_counts in
      let cd = decisions_due conf decisions no_counts in
      (count_loaded (some conf) models decisions ≡ some (cm, cd))
      × (cm.sync_count + cm.async_count + cm.remote_count + cm.training_count ≡ length models)
      × (cd.training_count + cd.production_count ≡ length decisions)
unfolding count_loaded models_due decisions_due
count_loaded-total conf models decisions =
    let model_counts = count_all-models_due conf models no_counts in
    let decision_counts = count_all-decisions_due conf decisions no_counts in
    (
      rw (model_counts, decision_counts, count_loaded),
      omega
          (arith, ap total (sym model_counts) ∙ total-count_all (model_mode conf) models no_counts),
      omega (
        arith,
        ap total (sym decision_counts) ∙ total-count_all (decision_mode conf) decisions no_counts,
      ),
    )
