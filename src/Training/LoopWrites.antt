-- ===== src/Training/LoopWrites.antt =====
-- pluginmanager/training_plugin.go, what the loop of handleTraining writes.
use mod_sec_intl_wace_lib.Base.{
  Bool-cases, List, String, [], ap, arith, if◌then◌else◌, inl, inr, ltb_int, ltb_int_iff, none, pos,
  refl, some, suc, ℕ, ◌++◌, ◌<ℤ◌, ◌=ₛ◌, ◌∙◌, ◌∷◌, ◌≡◌, ◌≤ℤ◌,
}
use mod_sec_intl_wace_lib.ConfigStore.Defs.{TrainingData}
use mod_sec_intl_wace_lib.Training.Status.{Time, TrainingStatus, failed, write_status}
use mod_sec_intl_wace_lib.Training.Rounds.{
  int_cases, training_loop-cancel, training_loop-fail, training_loop-over, training_loop-sample,
  training_loop-stop, update,
}
use mod_sec_intl_wace_lib.Training.Collect.{
  Event, cancel, count_sample, is_update, sample, training_loop,
}
use mod_sec_intl_wace_lib.Training.CollectLaws.{LoopInv, count_sample-LoopInv}
use mod_sec_intl_wace_lib.Training.Moments.{Moment, due_of, is_due, moments, status_at, written}

module _ (td : TrainingData) (created_at : Time) where
  -- What holds of the status inside the loop, with what no sample changes.
  pub record WriteInv (n : ℕ) (s : TrainingStatus) : Type 0 where
    pub inv : LoopInv td n s
    pub created_same : s.created_at ≡ created_at
    pub no_error : s.error_msg ≡ ""

  pub written-cons :
      (mo : Moment) (mos : List Moment)
      → written td created_at (mo ∷ []) ++ written td created_at mos
        ≡ written td created_at (mo ∷ mos)
  unfolding written
  written-cons mo mos = elim (Bool-cases (td.status_file_path =ₛ "")) [
    | inl nowhere ↦ rw (nowhere, written) refl
    | inr path ↦ rw (path, written) refl
  ]

  pub write_status-written :
      (n : ℕ) (s : TrainingStatus) (now : Time)
      → WriteInv n s
      → write_status s td.status_file_path now
        ≡ written td created_at (record { count = n; failure = none; time = now } ∷ [])
  unfolding write_status written status_at
  write_status-written n s now w =
      ap (λ x. if td.status_file_path =ₛ "" then [] else x ∷ [])
        (ground (
          arith, w.no_error, w.created_same, w.inv.min_same, w.inv.max_same, w.inv.count_same,
          w.inv.status_same,
        ))

  write_status-failed :
      (n : ℕ) (s : TrainingStatus) (e : String) (now : Time)
      → WriteInv n s
      → write_status (record s { status = failed; error_msg = e }) td.status_file_path now
        ≡ written td created_at (record { count = n; failure = some e; time = now } ∷ [])
  unfolding write_status written status_at
  write_status-failed n s e now w =
      ap (λ x. if td.status_file_path =ₛ "" then [] else x ∷ [])
        (ground
          (arith, w.no_error, w.created_same, w.inv.min_same, w.inv.max_same, w.inv.count_same))

  -- A round of the loop, in front of what is written behind it.
  update-written :
      (n : ℕ) (s : TrainingStatus) (now : Time) (mos : List Moment)
      → WriteInv n s
      → update td (is_update td n) s now ++ written td created_at (due_of td mos)
        ≡ written td created_at (due_of td (record { count = n; failure = none; time = now } ∷ mos))
  unfolding due_of is_due is_update
  update-written n s now mos w = elim (Bool-cases (is_update td n)) [
    | inl due ↦
        rw (due, due_of, is_due)
          (ap (λ l. l ++ written td created_at (due_of td mos)) (write_status-written n s now w)
            ∙ written-cons _ (due_of td mos))
    | inr quiet ↦ rw (quiet, due_of, is_due) refl
  ]

  count_sample-WriteInv :
      (n : ℕ) (s : TrainingStatus)
      → td.min_samples ≤ℤ td.max_samples
      → pos n <ℤ td.max_samples
      → WriteInv n s
      → WriteInv (suc n) (count_sample td (suc n) s)
  unfolding count_sample
  count_sample-WriteInv n s h below w = record {
    inv = count_sample-LoopInv td n s h below w.inv;
    created_same = w.created_same;
    no_error = w.no_error;
  }

  written-nil : [] ≡ written td created_at []
  unfolding written
  written-nil = elim (Bool-cases (td.status_file_path =ₛ "")) [
    | inl nowhere ↦ rw nowhere
    | inr path ↦ rw path
  ]

  pub moments-over :
      (n : ℕ) (events : List Event) → td.max_samples ≤ℤ pos n → moments td n events ≡ []
  unfolding moments ltb_int
  moments-over n [] over = refl
  moments-over n (cancel ∷ events) over = refl
  moments-over n (sample x (some e) now ∷ events) over = ground arith
  moments-over n (sample x none now ∷ events) over = ground arith

  -- Nothing is written at the maximum.
  over-writes :
      (events : List Event) (n : ℕ) (s : TrainingStatus)
      → td.max_samples ≤ℤ pos n
      → (training_loop td events n s).writes
        ≡ written td created_at (due_of td (moments td n events))
  unfolding due_of
  over-writes events n s over =
      rw (training_loop-over td events n s over, moments-over n events over, due_of) written-nil

  pub training_loop-writes :
      (events : List Event) (n : ℕ) (s : TrainingStatus)
      → td.min_samples ≤ℤ td.max_samples
      → WriteInv n s
      → (training_loop td events n s).writes
        ≡ written td created_at (due_of td (moments td n events))
  unfolding moments due_of is_due ltb_int written
  training_loop-writes [] n s h w = elim (int_cases td n) [
    | inr over ↦ over-writes [] n s over
    | inl below ↦ rw (training_loop-stop td n s below) written-nil
  ]
  training_loop-writes (cancel ∷ events) n s h w = elim (int_cases td n) [
    | inr over ↦ over-writes (cancel ∷ events) n s over
    | inl below ↦ rw (training_loop-cancel td events n s below) written-nil
  ]
  training_loop-writes (sample x (some e) now ∷ events) n s h w = elim (int_cases td n) [
    | inr over ↦ over-writes (sample x (some e) now ∷ events) n s over
    | inl below ↦ rw (training_loop-fail td x e now events n s below) (
        rw ((ltb_int_iff (pos n) td.max_samples).1 below, moments, due_of, is_due)
          (write_status-failed n s e now w))
  ]
  training_loop-writes (sample x none now ∷ events) n s h w = elim (int_cases td n) [
    | inr over ↦ over-writes (sample x none now ∷ events) n s over
    | inl below ↦
        let next = count_sample-WriteInv n s h below w in
        rw (training_loop-sample td x now events n s below) (
          rw ((ltb_int_iff (pos n) td.max_samples).1 below, moments)
            (ap (λ l. update td (is_update td (suc n)) (count_sample td (suc n) s) now ++ l)
                (training_loop-writes events (suc n) (count_sample td (suc n) s) h next)
              ∙ update-written (suc n) (count_sample td (suc n) s) now (moments td (suc n) events)
                  next))
  ]
