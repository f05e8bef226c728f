-- ===== src/Training/FillLaws.antt =====
-- pluginmanager/training_plugin.go, how far handleTraining fills the result file.
use mod_sec_intl_wace_lib.Base.{
  Bool-cases, List, Option, Result, [], add-suc, add-zero, arith, err, inl, inr, leb_int, length,
  negsuc, none, ok, pos, some, suc, suc-add, ℕ, ℤ, ◌+◌, ◌∷◌, ◌≡◌, ◌≤ℤ◌,
}
use mod_sec_intl_wace_lib.ConfigStore.Defs.{TrainingData}
use mod_sec_intl_wace_lib.Training.Status.{Time, TrainingStatus}
use mod_sec_intl_wace_lib.Training.Rounds.{
  int_cases, training_loop-cancel, training_loop-fail, training_loop-over, training_loop-sample,
  training_loop-stop,
}
use mod_sec_intl_wace_lib.Training.Collect.{
  Ending, Event, Outcome, cancel, cancelled, completed, count_sample, ends, entry_status,
  first_status, handle_training, is_over, lines, open_results, sample, skipped, start_collection,
  training_loop, waiting,
}

int_antisym : (n : ℕ) (a : ℤ) → pos n ≤ℤ a → a ≤ℤ pos n → pos n ≡ a
int_antisym n (pos m) h k = ground arith
int_antisym n (negsuc m) h k = absurd (omega arith)

module _ (td : TrainingData) where
  -- The samples that are appended never lead past the maximum, and a loop that completes has
  -- reached it.
  abbrev pub FillsTo : ℕ → Outcome → Type 0
  FillsTo n o =
      (pos (n + length o.samples) ≤ℤ td.max_samples)
      × (o.ending ≡ completed → pos (n + length o.samples) ≡ td.max_samples)

  ends-FillsTo :
      (n : ℕ) (e : Ending)
      → pos n ≤ℤ td.max_samples
      → (e ≡ completed → td.max_samples ≤ℤ pos n)
      → FillsTo n (ends e)
  ends-FillsTo n e h k = rw (add-zero n) (h, λ c. int_antisym n td.max_samples h (k c))

  training_loop-FillsTo :
      (events : List Event) (n : ℕ) (s : TrainingStatus)
      → pos n ≤ℤ td.max_samples
      → FillsTo n (training_loop td events n s)
  training_loop-FillsTo [] n s h = elim (int_cases td n) [
    | inr over ↦ rw (training_loop-over td [] n s over) (ends-FillsTo n completed h (λ _. over))
    | inl below ↦ rw (training_loop-stop td n s below) (ends-FillsTo n waiting h (λ c. cc))
  ]
  training_loop-FillsTo (cancel ∷ events) n s h = elim (int_cases td n) [
    | inr over ↦
        rw (training_loop-over td (cancel ∷ events) n s over)
          (ends-FillsTo n completed h (λ _. over))
    | inl below ↦
        rw (training_loop-cancel td events n s below) (ends-FillsTo n cancelled h (λ c. cc))
  ]
  training_loop-FillsTo (sample x (some e) now ∷ events) n s h = elim (int_cases td n) [
    | inr over ↦
        rw (training_loop-over td (sample x (some e) now ∷ events) n s over)
          (ends-FillsTo n completed h (λ _. over))
    | inl below ↦ rw (training_loop-fail td x e now events n s below) (rw (add-zero n) (h, λ c. cc))
  ]
  training_loop-FillsTo (sample x none now ∷ events) n s h = elim (int_cases td n) [
    | inr over ↦
        rw (training_loop-over td (sample x none now ∷ events) n s over)
          (ends-FillsTo n completed h (λ _. over))
    | inl below ↦
        rw (training_loop-sample td x now events n s below, add-suc, ← suc-add)
          (training_loop-FillsTo events (suc n) (count_sample td (suc n) s) (omega arith))
  ]

start_collection-FillsTo :
    (td : TrainingData) (now created_at : Time) (n : ℕ) (events : List Event)
    → pos n ≤ℤ td.max_samples
    → FillsTo td n (start_collection td now created_at n events)
unfolding start_collection
start_collection-FillsTo td now created_at n events h =
    elim (Bool-cases (leb_int td.max_samples (pos n))) [
      | inl over ↦ rw over (rw (add-zero n) (h, λ c. cc))
      | inr below ↦
          rw below
            (training_loop-FillsTo td events n (first_status td created_at n (entry_status td n)) h)
    ]

open_results-FillsTo :
    (td : TrainingData) (now created_at : Time) (n : ℕ) (events : List Event)
    → pos n ≤ℤ td.max_samples
    → FillsTo td n (open_results td now created_at (lines n) events)
unfolding open_results
open_results-FillsTo td now created_at n events h =
    start_collection-FillsTo td now created_at n events h

-- On a result file with no more lines than the maximum, the lines that are there and the samples
-- that are appended are never more than the maximum, and are exactly the maximum if the collection
-- completes.
pub handle_training-FillsTo :
    (td : TrainingData) (now : Time) (existing : Result (Option TrainingStatus)) (n : ℕ)
    (events : List Event)
    → pos n ≤ℤ td.max_samples
    → FillsTo td n (handle_training td now existing (lines n) events)
unfolding handle_training
handle_training-FillsTo td now (err e) n events h = open_results-FillsTo td now now n events h
handle_training-FillsTo td now (ok none) n events h = open_results-FillsTo td now now n events h
handle_training-FillsTo td now (ok (some s)) n events h = elim (Bool-cases (is_over s.status)) [
  | inl over ↦ rw over (ends-FillsTo td n skipped h (λ c. cc))
  | inr on ↦ rw on (open_results-FillsTo td now s.created_at n events h)
]
