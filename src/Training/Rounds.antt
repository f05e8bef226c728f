-- ===== src/Training/Rounds.antt =====
-- pluginmanager/training_plugin.go, the rounds of the loop of handleTraining, each with its test.
use mod_sec_intl_wace_lib.Base.{
  Bool, List, String, [], arith, if◌then◌else◌, ltb_int, ltb_int_iff, none, pos, some, suc, ℕ, ◌<ℤ◌,
  ◌∷◌, ◌≡◌, ◌≤ℤ◌, ◌⊎◌,
}
use mod_sec_intl_wace_lib.WaceApi.{Any}
use mod_sec_intl_wace_lib.ConfigStore.Defs.{TrainingData}
use mod_sec_intl_wace_lib.Training.Status.{Time, TrainingStatus, failed, write_status}
use mod_sec_intl_wace_lib.Training.Collect.{
  Event, before, cancel, cancelled, completed, count_sample, encoding_failed, ends, is_update,
  sample, training_loop, waiting,
}

module _ (td : TrainingData) where
  -- `write_status` under a test.
  abbrev pub update : Bool → TrainingStatus → Time → List TrainingStatus
  update b s now = if b then write_status s td.status_file_path now else []

  -- The equations of a round inside the loop.
  pub training_loop-sample :
      (x : Any) (now : Time) (events : List Event) (n : ℕ) (s : TrainingStatus)
      → pos n <ℤ td.max_samples
      → let s' = count_sample td (suc n) s in
        training_loop td (sample x none now ∷ events) n s
        ≡ before
            (x ∷ [])
            (update (is_update td (suc n)) s' now)
            (training_loop td events (suc n) s')
  unfolding training_loop
  training_loop-sample x now events n s h = rw ((ltb_int_iff (pos n) td.max_samples).1 h)

  pub training_loop-over :
      (events : List Event) (n : ℕ) (s : TrainingStatus)
      → td.max_samples ≤ℤ pos n
      → training_loop td events n s ≡ ends completed
  unfolding training_loop ltb_int
  training_loop-over [] n s h = ground arith
  training_loop-over (cancel ∷ events) n s h = ground arith
  training_loop-over (sample x (some e) now ∷ events) n s h = ground arith
  training_loop-over (sample x none now ∷ events) n s h = ground arith

  pub int_cases : (n : ℕ) → (pos n <ℤ td.max_samples) ⊎ (td.max_samples ≤ℤ pos n)
  int_cases n = grind arith

  -- The endings of the loop below the maximum.
  pub training_loop-stop :
      (n : ℕ) (s : TrainingStatus)
      → pos n <ℤ td.max_samples
      → training_loop td [] n s ≡ ends waiting
  unfolding training_loop
  training_loop-stop n s h = rw ((ltb_int_iff (pos n) td.max_samples).1 h)

  pub training_loop-cancel :
      (events : List Event) (n : ℕ) (s : TrainingStatus)
      → pos n <ℤ td.max_samples
      → training_loop td (cancel ∷ events) n s ≡ ends cancelled
  unfolding training_loop
  training_loop-cancel events n s h = rw ((ltb_int_iff (pos n) td.max_samples).1 h)

  pub training_loop-fail :
      (x : Any) (e : String) (now : Time) (events : List Event) (n : ℕ) (s : TrainingStatus)
      → pos n <ℤ td.max_samples
      → training_loop td (sample x (some e) now ∷ events) n s ≡ record {
        samples = [];
        writes = write_status (record s { status = failed; error_msg = e }) td.status_file_path now;
        ending = encoding_failed;
      }
  unfolding training_loop
  training_loop-fail x e now events n s h = rw ((ltb_int_iff (pos n) td.max_samples).1 h)
