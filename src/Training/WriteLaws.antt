-- ===== src/Training/WriteLaws.antt =====
-- pluginmanager/training_plugin.go, what handleTraining writes.
use mod_sec_intl_wace_lib.Base.{
  Bool-cases, List, Option, Result, ap, arith, err, inl, inr, leb_int, leb_int_false, leb_int_iff,
  none, ok, pos, refl, some, ℕ, ◌++◌, ◌<ℤ◌, ◌∙◌, ◌∷◌, ◌≡◌, ◌≤ℤ◌,
}
use mod_sec_intl_wace_lib.ConfigStore.Defs.{TrainingData}
use mod_sec_intl_wace_lib.Training.Status.{
  CollectionStatus, Time, TrainingStatus, collecting, done, failed, ready, write_status,
}
use mod_sec_intl_wace_lib.Training.Collect.{
  Event, ResultFile, cannot_open, cannot_read, entry_status, first_status, handle_training, is_over,
  lines, open_results, start_collection,
}
use mod_sec_intl_wace_lib.Training.CollectLaws.{first_status-LoopInv, status_of}
use mod_sec_intl_wace_lib.Training.Moments.{due_of, due_writes, moments, written}
use mod_sec_intl_wace_lib.Training.LoopWrites.{
  WriteInv, moments-over, training_loop-writes, write_status-written, written-cons,
}

module _ (td : TrainingData) (created_at : Time) where
  first_status-WriteInv :
      (n : ℕ)
      → pos n <ℤ td.max_samples
      → WriteInv td created_at n (first_status td created_at n (entry_status td n))
  unfolding first_status
  first_status-WriteInv n below = record {
    inv = first_status-LoopInv td created_at n below;
    created_same = refl;
    no_error = refl;
  }

  full-WriteInv :
      (n : ℕ)
      → td.max_samples ≤ℤ pos n
      → WriteInv td created_at n (first_status td created_at n done)
  unfolding first_status status_of
  full-WriteInv n over = record {
    inv = record {
      min_same = refl;
      max_same = refl;
      count_same = refl;
      status_same = ground arith;
    };
    created_same = refl;
    no_error = refl;
  }

  start_collection-writes :
      (now : Time) (n : ℕ) (events : List Event)
      → td.min_samples ≤ℤ td.max_samples
      → (start_collection td now created_at n events).writes
        ≡ written td created_at
            (record { count = n; failure = none; time = now } ∷ due_of td (moments td n events))
  unfolding start_collection due_of
  start_collection-writes now n events h = elim (Bool-cases (leb_int td.max_samples (pos n))) [
    | inl reached ↦
        let over = (leb_int_iff td.max_samples (pos n)).0 reached in
        rw reached (
          rw (moments-over td created_at n events over, due_of)
            (write_status-written td created_at n _ now (full-WriteInv n over)))
    | inr room ↦
        let below = leb_int_false _ _ room in
        let w = first_status-WriteInv n below in
        let s = first_status td created_at n (entry_status td n) in
        rw room (
          ap (λ l. write_status s td.status_file_path now ++ l)
            (training_loop-writes td created_at events n s h w)
          ∙ ap (λ l. l ++ written td created_at (due_of td (moments td n events)))
              (write_status-written td created_at n s now w)
          ∙ written-cons td created_at _ _)
  ]

-- A collection that was begun before.
resumed-writes :
    (td : TrainingData) (now : Time) (s : TrainingStatus) (file : ResultFile) (events : List Event)
    → td.min_samples ≤ℤ td.max_samples
    → (handle_training td now (ok (some s)) file events).writes
      ≡ due_writes td now (ok (some s)) file events
unfolding handle_training open_results due_writes is_over
resumed-writes td now s file events h = go file s.status refl
  where
    go :
        (f : ResultFile) (c : CollectionStatus)
        → s.status ≡ c
        → (handle_training td now (ok (some s)) f events).writes
          ≡ due_writes td now (ok (some s)) f events
    go cannot_open done e = rw (e, handle_training) refl
    go cannot_open failed e = rw (e, handle_training) refl
    go cannot_open collecting e = rw (e, handle_training) refl
    go cannot_open ready e = rw (e, handle_training) refl
    go cannot_read done e = rw (e, handle_training) refl
    go cannot_read failed e = rw (e, handle_training) refl
    go cannot_read collecting e = rw (e, handle_training) refl
    go cannot_read ready e = rw (e, handle_training) refl
    go (lines n) done e = rw (e, handle_training, due_writes) refl
    go (lines n) failed e = rw (e, handle_training, due_writes) refl
    go (lines n) collecting e =
        rw (e, handle_training, due_writes) (start_collection-writes td s.created_at now n events h)
    go (lines n) ready e =
        rw (e, handle_training, due_writes) (start_collection-writes td s.created_at now n events h)

-- What the goroutine writes is known in full: nothing where the collection is over, the result file
-- cannot be opened or read, or there is no path; else a status at the start, for the lines of the
-- file, and one for each sample that brings the number to the minimum, the maximum or a multiple of
-- the interval, in their order, and a last one for a sample that cannot be encoded. Each has the
-- number of samples at that point, the limits of the configuration, the time, and the status of the
-- number, or the error. The minimum is not above the maximum, as the configuration check asks.
pub handle_training-writes :
    (td : TrainingData) (now : Time) (existing : Result (Option TrainingStatus)) (file : ResultFile)
    (events : List Event)
    → td.min_samples ≤ℤ td.max_samples
    → (handle_training td now existing file events).writes ≡ due_writes td now existing file events
unfolding handle_training open_results due_writes
handle_training-writes td now (err e) cannot_open events h = refl
handle_training-writes td now (err e) cannot_read events h = refl
handle_training-writes td now (err e) (lines n) events h =
    start_collection-writes td now now n events h
handle_training-writes td now (ok none) cannot_open events h = refl
handle_training-writes td now (ok none) cannot_read events h = refl
handle_training-writes td now (ok none) (lines n) events h =
    start_collection-writes td now now n events h
handle_training-writes td now (ok (some s)) file events h = resumed-writes td now s file events h
