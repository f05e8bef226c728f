-- ===== src/Training/Collect.antt =====
-- pluginmanager/training_plugin.go, handleTraining: the goroutine that collects the samples of one
-- plugin. What it meets is an argument: the files, the clock, and the events of its `select`.
use mod_sec_intl_wace_lib.Base.{
  Bool, List, Option, Result, String, [], eqb_int, err, false, if◌then◌else◌, leb_int, ltb_int,
  none, ok, pos, pos_part, some, suc, true, ℕ, ◌%◌, ◌&&◌, ◌++◌, ◌==◌, ◌||◌, ◌∷◌,
}
use mod_sec_intl_wace_lib.WaceApi.{Any}
use mod_sec_intl_wace_lib.ConfigStore.Defs.{TrainingData}
use mod_sec_intl_wace_lib.Training.Status.{
  CollectionStatus, Time, TrainingStatus, collecting, done, failed, ready, write_status,
}

-- What the `select` gives: a sample, the failure to encode it if it fails, and the time; or the end
-- of the training context.
pub data Event : Type 0 where
  sample : Any → Option String → Time → Event
  cancel : Event

-- The result file when it is opened and read: the number of its lines.
pub data ResultFile : Type 0 where
  cannot_open cannot_read : ResultFile
  lines : ℕ → ResultFile

-- How the goroutine ended; `waiting` is a goroutine that blocks with no event left.
pub data Ending : Type 0 where
  skipped no_file full completed encoding_failed cancelled waiting : Ending

-- The samples appended to the result file, the statuses written, and the ending.
pub record Outcome : Type 0 where
  pub samples : List Any
  pub writes : List TrainingStatus
  pub ending : Ending

abbrev pub ends : Ending → Outcome
ends e = record { samples = []; writes = []; ending = e }

-- What a round adds in front of what the rest of the loop does.
abbrev pub before : List Any → List TrainingStatus → Outcome → Outcome
before xs ws o = record o { samples = xs ++ o.samples; writes = ws ++ o.writes }

-- The `switch` on the new count; the first case that fits is taken.
unfoldable pub next_status : TrainingData → ℕ → CollectionStatus → CollectionStatus
unfolding eqb_int
next_status td n s =
    if eqb_int (pos n) td.max_samples
    then done
    else if eqb_int (pos n) td.min_samples
    then ready
    else s

-- Whether the status file is written at the new count.
unfoldable pub is_update : TrainingData → ℕ → Bool
unfolding eqb_int ltb_int
is_update td n =
    eqb_int (pos n) td.min_samples
    || eqb_int (pos n) td.max_samples
    || (ltb_int (pos 0) td.status_update_interval && n % pos_part td.status_update_interval == 0)

-- The state after one more sample.
unfoldable pub count_sample : TrainingData → ℕ → TrainingStatus → TrainingStatus
unfolding next_status
count_sample td n s = record s { collected_samples = n; status = next_status td n s.status }

-- The `for` loop with its `select`, over the events that come.
unfoldable pub training_loop : TrainingData → List Event → ℕ → TrainingStatus → Outcome
unfolding ltb_int is_update count_sample
training_loop td [] n s = if ltb_int (pos n) td.max_samples then ends waiting else ends completed
training_loop td (cancel ∷ events) n s =
    if ltb_int (pos n) td.max_samples then ends cancelled else ends completed
training_loop td (sample x (some e) now ∷ events) n s =
    if ltb_int (pos n) td.max_samples
    then record {
      samples = [];
      writes = write_status (record s { status = failed; error_msg = e }) td.status_file_path now;
      ending = encoding_failed;
    }
    else ends completed
training_loop td (sample x none now ∷ events) n s =
    let s' = count_sample td (suc n) s in
    let rest = training_loop td events (suc n) s' in
    if ltb_int (pos n) td.max_samples
    then before (x ∷ [])
        (if is_update td (suc n) then write_status s' td.status_file_path now else []) rest
    else ends completed

-- The status with which the goroutine starts, at the lines that the result file holds.
unfoldable pub first_status : TrainingData → Time → ℕ → CollectionStatus → TrainingStatus
first_status td created_at n c = record {
  collected_samples = n;
  min_samples = td.min_samples;
  max_samples = td.max_samples;
  status = c;
  error_msg = "";
  created_at = created_at;
  updated_at = 0;
}

-- `ready` or `collecting`, on the way into the loop.
unfoldable pub entry_status : TrainingData → ℕ → CollectionStatus
unfolding leb_int
entry_status td n = if leb_int td.min_samples (pos n) then ready else collecting

-- What follows once the lines of the result file are counted: the status is written, and the loop
-- is entered if the file is not full.
unfoldable pub start_collection : TrainingData → Time → Time → ℕ → List Event → Outcome
start_collection td now created_at n events =
    let s = first_status td created_at n (entry_status td n) in
    if leb_int td.max_samples (pos n)
    then record {
      samples = [];
      writes = write_status (first_status td created_at n done) td.status_file_path now;
      ending = full;
    }
    else before [] (write_status s td.status_file_path now) (training_loop td events n s)

-- A collection that is over is not taken up again.
unfoldable pub is_over : CollectionStatus → Bool
is_over done = true
is_over failed = true
is_over collecting = false
is_over ready = false

-- From the opening of the result file on.
unfoldable pub open_results : TrainingData → Time → Time → ResultFile → List Event → Outcome
open_results td now created_at cannot_open events = ends no_file
open_results td now created_at cannot_read events = ends no_file
open_results td now created_at (lines n) events = start_collection td now created_at n events

-- `handleTraining`. A status file that cannot be loaded is logged and taken for a missing one.
unfoldable pub handle_training :
    TrainingData → Time → Result (Option TrainingStatus) → ResultFile → List Event → Outcome
unfolding is_over open_results
handle_training td now (err e) file events = open_results td now now file events
handle_training td now (ok none) file events = open_results td now now file events
handle_training td now (ok (some s)) file events =
    if is_over s.status then ends skipped else open_results td now s.created_at file events
