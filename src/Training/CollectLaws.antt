-- ===== src/Training/CollectLaws.antt =====
-- pluginmanager/training_plugin.go, the status inside the loop of handleTraining.
use mod_sec_intl_wace_lib.Base.{
  arith, eqb_int_iff, if◌then◌else◌, int_tight, leb_int, pos, refl, suc, ℕ, ◌<ℤ◌, ◌≡◌, ◌≤ℤ◌,
}
use mod_sec_intl_wace_lib.ConfigStore.Defs.{TrainingData}
use mod_sec_intl_wace_lib.Training.Status.{
  CollectionStatus, Time, TrainingStatus, collecting, done, ready,
}
use mod_sec_intl_wace_lib.Training.Collect.{count_sample, entry_status, first_status, next_status}

-- The status that a count of samples stands for.
unfoldable pub status_of : TrainingData → ℕ → CollectionStatus
unfolding leb_int
status_of td n =
    if leb_int td.max_samples (pos n)
    then done
    else if leb_int td.min_samples (pos n)
    then ready
    else collecting

-- What holds of the status inside the loop.
pub record LoopInv (td : TrainingData) (n : ℕ) (s : TrainingStatus) : Type 0 where
  pub min_same : s.min_samples ≡ td.min_samples
  pub max_same : s.max_samples ≡ td.max_samples
  pub count_same : s.collected_samples ≡ n
  pub status_same : s.status ≡ status_of td n

status_of-done : (td : TrainingData) (n : ℕ) → td.max_samples ≤ℤ pos n → done ≡ status_of td n
unfolding status_of
status_of-done td n h = ground arith

next_status_lem :
    (td : TrainingData) (n : ℕ)
    → td.min_samples ≤ℤ td.max_samples
    → pos n <ℤ td.max_samples
    → next_status td (suc n) (status_of td n) ≡ status_of td (suc n)
unfolding next_status status_of
next_status_lem td n h k = ground (
  arith,
  eqb_int_iff (pos (suc n)) td.max_samples,
  eqb_int_iff (pos (suc n)) td.min_samples,
  int_tight n td.max_samples,
  int_tight n td.min_samples,
)

pub count_sample-LoopInv :
    (td : TrainingData) (n : ℕ) (s : TrainingStatus)
    → td.min_samples ≤ℤ td.max_samples
    → pos n <ℤ td.max_samples
    → LoopInv td n s
    → LoopInv td (suc n) (count_sample td (suc n) s)
unfolding count_sample
count_sample-LoopInv td n s h k inv = record {
  min_same = inv.min_same;
  max_same = inv.max_same;
  count_same = refl;
  status_same = rw (inv.status_same) (next_status_lem td n h k);
}

-- The status that is written before the loop.
pub first_status-LoopInv :
    (td : TrainingData) (created_at : Time) (n : ℕ)
    → pos n <ℤ td.max_samples
    → LoopInv td n (first_status td created_at n (entry_status td n))
unfolding status_of first_status entry_status
first_status-LoopInv td created_at n h = record {
  min_same = refl;
  max_same = refl;
  count_same = refl;
  status_same = ground arith;
}
