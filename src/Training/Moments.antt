-- ===== src/Training/Moments.antt =====
-- pluginmanager/training_plugin.go, handleTraining: at which points a status is due, and which.
use mod_sec_intl_wace_lib.Base.{
  Bool, List, Option, Result, String, [], eqb_int, err, if◌then◌else◌, ltb_int, map, none, ok, pos,
  pos_part, some, suc, true, ℕ, ◌%◌, ◌&&◌, ◌==◌, ◌=ₛ◌, ◌||◌, ◌∷◌,
}
use mod_sec_intl_wace_lib.ConfigStore.Defs.{TrainingData}
use mod_sec_intl_wace_lib.Training.Status.{Time, TrainingStatus, collecting, done, failed, ready}
use mod_sec_intl_wace_lib.Training.Collect.{
  Event, ResultFile, cancel, cannot_open, cannot_read, lines, sample,
}
use mod_sec_intl_wace_lib.Training.CollectLaws.{status_of}

-- A point at which a status may be written: the number of samples, the failure to encode the next one
-- if it has failed, and the time.
pub record Moment : Type 0 where
  pub count : ℕ
  pub failure : Option String
  pub time : Time

-- The points that the events bring, from `n` samples on.
unfoldable pub moments : TrainingData → ℕ → List Event → List Moment
moments td n [] = []
moments td n (cancel ∷ events) = []
moments td n (sample x (some e) now ∷ events) =
    if ltb_int (pos n) td.max_samples
    then (record { count = n; failure = some e; time = now }) ∷ []
    else []
moments td n (sample x none now ∷ events) =
    let rest = moments td (suc n) events in
    if ltb_int (pos n) td.max_samples
    then (record { count = suc n; failure = none; time = now }) ∷ rest
    else []

-- Whether a point is one at which the status is written: a failure, the minimum, the maximum, or a
-- multiple of the interval, if there is one.
unfoldable pub is_due : TrainingData → Moment → Bool
unfolding eqb_int ltb_int
is_due td mo = elim mo.failure [
  | some e ↦ true
  | none ↦
      eqb_int (pos mo.count) td.min_samples
      || eqb_int (pos mo.count) td.max_samples
      || (ltb_int (pos 0) td.status_update_interval
          && mo.count % pos_part td.status_update_interval == 0)
]

unfoldable pub due_of : TrainingData → List Moment → List Moment
unfolding is_due
due_of td [] = []
due_of td (mo ∷ mos) = let rest = due_of td mos in if is_due td mo then mo ∷ rest else rest

-- The status at a point.
unfoldable pub status_at : TrainingData → Time → Moment → TrainingStatus
unfolding status_of
status_at td created_at mo = record {
  collected_samples = mo.count;
  min_samples = td.min_samples;
  max_samples = td.max_samples;
  status = elim mo.failure [ none ↦ status_of td mo.count | some e ↦ failed ];
  error_msg = elim mo.failure [ none ↦ "" | some e ↦ e ];
  created_at = created_at;
  updated_at = mo.time;
}

-- The statuses that are written, if there is a path for them.
unfoldable pub written : TrainingData → Time → List Moment → List TrainingStatus
unfolding status_at
written td created_at mos =
    if td.status_file_path =ₛ "" then [] else map (status_at td created_at) mos

-- The writes of the goroutine: none where the collection is over already or the result file cannot be
-- read, and else the one at its start and those that are due.
unfoldable pub due_writes :
    TrainingData
    → Time
    → Result (Option TrainingStatus)
    → ResultFile
    → List Event
    → List TrainingStatus
unfolding written due_of moments
due_writes td now existing cannot_open events = []
due_writes td now existing cannot_read events = []
due_writes td now existing (lines n) events =
    let mos = record { count = n; failure = none; time = now } ∷ due_of td (moments td n events) in
    elim existing [
      | err e ↦ written td now mos
      | ok o ↦ elim o [
        | none ↦ written td now mos
        | some s ↦ elim s.status [
          | done ↦ []
          | failed ↦ []
          | collecting ↦ written td s.created_at mos
          | ready ↦ written td s.created_at mos
        ]
      ]
    ]
