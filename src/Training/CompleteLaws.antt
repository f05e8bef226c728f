-- ===== src/Training/CompleteLaws.antt =====
-- pluginmanager/training_plugin.go, how a collection completes.
use mod_sec_intl_wace_lib.Base.{
  =ₛ_iff, List, Option, Result, [], add-suc, add-zero, ap, append_assoc, arith, eqb_int_iff, err,
  false, leb_int, length, map, none, ok, pos, refl, some, subst, suc, suc-add, sym, true, ℕ, ◌++◌,
  ◌+◌, ◌<ℤ◌, ◌∙◌, ◌∷◌, ◌≡◌, ◌≢◌, ◌≤ℤ◌,
}
use mod_sec_intl_wace_lib.WaceApi.{Any}
use mod_sec_intl_wace_lib.ConfigStore.Defs.{TrainingData}
use mod_sec_intl_wace_lib.Training.Status.{Time, TrainingStatus, done, write_status}
use mod_sec_intl_wace_lib.Training.Rounds.{training_loop-over, training_loop-sample, update}
use mod_sec_intl_wace_lib.Training.Collect.{
  Event, Outcome, before, completed, count_sample, entry_status, first_status, handle_training,
  is_over, is_update, lines, open_results, sample, start_collection, training_loop,
}
use mod_sec_intl_wace_lib.Training.CollectLaws.{
  LoopInv, count_sample-LoopInv, first_status-LoopInv, status_of,
}

leb_int_above : (n k : ℕ) → leb_int (pos (suc (n + k))) (pos n) ≡ false
unfolding leb_int
leb_int_above n k = ground arith

module _ (td : TrainingData) where
  -- Samples that are all encoded, with their times.
  abbrev pub samples_at : List (Any × Time) → List Event
  samples_at = map (λ (x, now). sample x none now)

  abbrev pub values : List (Any × Time) → List Any
  values = map (λ (x, now). x)

  -- The loop has completed with these samples, and its last write says `done` at the maximum.
  abbrev pub IsComplete : List Any → Outcome → Type 0
  IsComplete xs o =
      (o.ending ≡ completed)
      × (o.samples ≡ xs)
      × (ws : List TrainingStatus) × (w : TrainingStatus) × (o.writes ≡ ws ++ (w ∷ []))
      × (w.status ≡ done)
      × (pos w.collected_samples ≡ td.max_samples)

  -- What one more round in front makes of a complete rest.
  before-IsComplete :
      (x : Any) (ws : List TrainingStatus) (xs : List Any) (o : Outcome)
      → IsComplete xs o
      → IsComplete (x ∷ xs) (before (x ∷ []) ws o)
  before-IsComplete x ws xs o (ended, held, us, w, written, final, count) = (
    ended,
    ap (λ l. x ∷ l) held,
    ws ++ us,
    w,
    ap (λ l. ws ++ l) written ∙ sym (append_assoc ws us (w ∷ [])),
    final,
    count,
  )

  before_writes-IsComplete :
      (ws : List TrainingStatus) (xs : List Any) (o : Outcome)
      → IsComplete xs o
      → IsComplete xs (before [] ws o)
  before_writes-IsComplete ws xs o (ended, held, us, w, written, final, count) = (
    ended,
    held,
    ws ++ us,
    w,
    ap (λ l. ws ++ l) written ∙ sym (append_assoc ws us (w ∷ [])),
    final,
    count,
  )

  is_update-max : (n : ℕ) → pos n ≡ td.max_samples → is_update td n ≡ true
  unfolding is_update
  is_update-max n h = ground (arith, eqb_int_iff (pos n) td.max_samples)

  write_status-given :
      (s : TrainingStatus) (now : Time)
      → td.status_file_path ≢ ""
      → write_status s td.status_file_path now ≡ (record s { updated_at = now }) ∷ []
  unfolding write_status
  write_status-given s now h = ground (arith, =ₛ_iff td.status_file_path "")

  status_of-max : (n : ℕ) → pos n ≡ td.max_samples → status_of td n ≡ done
  unfolding status_of
  status_of-max n h = ground arith

  -- The round of the last sample.
  last_round :
      (x : Any) (now : Time) (rest : List Event) (n : ℕ) (s : TrainingStatus)
      → td.status_file_path ≢ ""
      → td.min_samples ≤ℤ td.max_samples
      → LoopInv td n s
      → pos (suc n) ≡ td.max_samples
      → IsComplete (x ∷ []) (training_loop td (sample x none now ∷ rest) n s)
  last_round x now rest n s given h inv top =
      let below : pos n <ℤ td.max_samples = subst (λ a. pos n <ℤ a) top (omega arith) in
      let over : td.max_samples ≤ℤ pos (suc n) = subst (λ a. a ≤ℤ pos (suc n)) top (omega arith) in
      let s' = count_sample td (suc n) s in
      let inv' = count_sample-LoopInv td n s h below inv in
      rw
        (
          training_loop-sample td x now rest n s below,
          training_loop-over td rest (suc n) s' over,
          is_update-max (suc n) top,
          write_status-given s' now given,
        )
        (
          refl,
          refl,
          [],
          record s' { updated_at = now },
          refl,
          inv'.status_same ∙ status_of-max (suc n) top,
          ap pos inv'.count_same ∙ top,
        )

  training_loop-IsComplete :
      (x : Any) (now : Time) (xs : List (Any × Time)) (rest : List Event) (n : ℕ)
      (s : TrainingStatus)
      → td.status_file_path ≢ ""
      → td.min_samples ≤ℤ td.max_samples
      → LoopInv td n s
      → pos (suc (n + length xs)) ≡ td.max_samples
      → IsComplete (x ∷ values xs) (training_loop td (samples_at ((x, now) ∷ xs) ++ rest) n s)
  training_loop-IsComplete x now [] rest n s given h inv top =
      last_round x now rest n s given h inv (ap (λ k. pos (suc k)) (sym (add-zero n)) ∙ top)
  training_loop-IsComplete x now ((y, then') ∷ xs) rest n s given h inv top =
      let below : pos n <ℤ td.max_samples = subst (λ a. pos n <ℤ a) top (omega arith) in
      let s' = count_sample td (suc n) s in
      rw (training_loop-sample td x now (samples_at ((y, then') ∷ xs) ++ rest) n s below) (
        before-IsComplete x (update td (is_update td (suc n)) s' now) (y ∷ values xs) _ (
          training_loop-IsComplete y then' xs rest (suc n) s' given h
            (count_sample-LoopInv td n s h below inv)
            (ap (λ k. pos (suc k)) (suc-add n (length xs) ∙ sym (add-suc n (length xs))) ∙ top)))

-- The status file, if it can be loaded, does not say that the collection is over.
abbrev pub IsOpen : Result (Option TrainingStatus) → Type 0
IsOpen (err e) = Unit
IsOpen (ok none) = Unit
IsOpen (ok (some s)) = is_over s.status ≡ false

open_results-IsComplete :
    (td : TrainingData) (now created_at : Time) (n : ℕ) (x : Any) (t : Time)
    (xs : List (Any × Time)) (rest : List Event)
    → td.status_file_path ≢ ""
    → td.min_samples ≤ℤ td.max_samples
    → pos (suc (n + length xs)) ≡ td.max_samples
    → IsComplete td
        (x ∷ values td xs)
        (open_results td now created_at (lines n) (samples_at td ((x, t) ∷ xs) ++ rest))
unfolding open_results start_collection
open_results-IsComplete td now created_at n x t xs rest given h top =
    let below : pos n <ℤ td.max_samples = subst (λ a. pos n <ℤ a) top (omega arith) in
    let open_yet : leb_int td.max_samples (pos n) ≡ false =
      subst (λ a. leb_int a (pos n) ≡ false) top (leb_int_above n (length xs)) in
    let s = first_status td created_at n (entry_status td n) in
    rw open_yet (
      before_writes-IsComplete td (write_status s td.status_file_path now) (x ∷ values td xs) _ (
        training_loop-IsComplete td x t xs rest n s given h
          (first_status-LoopInv td created_at n below) top))

-- When as many samples come as are missing, all of them encoded, the collection completes with
-- these samples whatever comes later, and its last write says done with the maximum as the count:
-- provided that the file is not over, a status path is set and the minimum is not above the
-- maximum.
pub handle_training-IsComplete :
    (td : TrainingData) (now : Time) (existing : Result (Option TrainingStatus)) (n : ℕ) (x : Any)
    (t : Time) (xs : List (Any × Time)) (rest : List Event)
    → IsOpen existing
    → td.status_file_path ≢ ""
    → td.min_samples ≤ℤ td.max_samples
    → pos (suc (n + length xs)) ≡ td.max_samples
    → IsComplete td
        (x ∷ values td xs)
        (handle_training td now existing (lines n) (samples_at td ((x, t) ∷ xs) ++ rest))
unfolding handle_training
handle_training-IsComplete td now (err e) n x t xs rest on =
    open_results-IsComplete td now now n x t xs rest
handle_training-IsComplete td now (ok none) n x t xs rest on =
    open_results-IsComplete td now now n x t xs rest
handle_training-IsComplete td now (ok (some s)) n x t xs rest on =
    rw on (open_results-IsComplete td now s.created_at n x t xs rest)
