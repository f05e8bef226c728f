-- ===== src/Core/WaitLaws.antt =====
-- wacecore.go, what the waiting loops of callPlugins record, and when they end.
use mod_sec_intl_wace_lib.Base.{
  Bool, List, Option-cases, String, [], ap, arith, false, if◌then◌else◌, inl, inr, length, ltb, map,
  none, refl, some, suc, true, zero, ℕ, ◌++◌, ◌-◌, ◌↔◌, ◌∙◌, ◌∷◌, ◌≡◌, ◌≤◌, ◌⊎◌,
}
use mod_sec_intl_wace_lib.ConfigStore.Defs.{Float64}
use mod_sec_intl_wace_lib.PluginManager.Tx.{ModelStatus}
use mod_sec_intl_wace_lib.Core.Wait.{
  Metric, WaitEvent, WaitMode, arrived, attack_probability, expired, model_duration, model_error,
  model_timeouts, record_model_result, record_timeouts, transaction_checked, wait_loop,
}

-- The statuses that come before the context ends, `n` at most.
unfoldable pub taken : ℕ → List WaitEvent → List ModelStatus
taken zero events = []
taken (suc n) [] = []
taken (suc n) (expired ∷ events) = []
taken (suc n) (arrived st ∷ events) = st ∷ taken n events

-- What the metrics say, kind by kind, in their order.
unfoldable pub durations : List Metric → List (String × WaitMode)
durations [] = []
durations (model_duration id mode ∷ ms) = (id, mode) ∷ durations ms
durations (model_timeouts mode n ∷ ms) = durations ms
durations (model_error id mode ∷ ms) = durations ms
durations (attack_probability id mode p ∷ ms) = durations ms
durations (transaction_checked b ∷ ms) = durations ms

unfoldable pub errors : List Metric → List (String × WaitMode)
errors [] = []
errors (model_duration id mode ∷ ms) = errors ms
errors (model_timeouts mode n ∷ ms) = errors ms
errors (model_error id mode ∷ ms) = (id, mode) ∷ errors ms
errors (attack_probability id mode p ∷ ms) = errors ms
errors (transaction_checked b ∷ ms) = errors ms

unfoldable pub probabilities : List Metric → List (String × WaitMode × Float64)
probabilities [] = []
probabilities (model_duration id mode ∷ ms) = probabilities ms
probabilities (model_timeouts mode n ∷ ms) = probabilities ms
probabilities (model_error id mode ∷ ms) = probabilities ms
probabilities (attack_probability id mode p ∷ ms) = (id, mode, p) ∷ probabilities ms
probabilities (transaction_checked b ∷ ms) = probabilities ms

unfoldable pub timeouts : List Metric → List (WaitMode × ℕ)
timeouts [] = []
timeouts (model_duration id mode ∷ ms) = timeouts ms
timeouts (model_timeouts mode n ∷ ms) = (mode, n) ∷ timeouts ms
timeouts (model_error id mode ∷ ms) = timeouts ms
timeouts (attack_probability id mode p ∷ ms) = timeouts ms
timeouts (transaction_checked b ∷ ms) = timeouts ms

-- The statuses with an error, and those without.
unfoldable pub failed_of : List ModelStatus → List ModelStatus
failed_of [] = []
failed_of (st ∷ sts) =
    let rest = failed_of sts in elim st.error [ none ↦ rest | some e ↦ st ∷ rest ]

unfoldable pub fine_of : List ModelStatus → List ModelStatus
fine_of [] = []
fine_of (st ∷ sts) = let rest = fine_of sts in elim st.error [ none ↦ st ∷ rest | some e ↦ rest ]

-- One record of those that are missing, if any are.
unfoldable pub due_timeouts : WaitMode → ℕ → ℕ → List (WaitMode × ℕ)
due_timeouts mode n came = if ltb came n then (mode, n - came) ∷ [] else []

due_timeouts-suc :
    (mode : WaitMode) (n came : ℕ) → due_timeouts mode n came ≡ due_timeouts mode (suc n) (suc came)
unfolding due_timeouts
due_timeouts-suc mode n came = ground arith

-- The metrics of a loop that waits for `n` models.
pub record Accounts (mode : WaitMode) (n : ℕ) (events : List WaitEvent) (ms : List Metric)
    : Type 0 where
  pub all_timed : durations ms ≡ map (λ st. (st.model_id, mode)) (taken n events)
  pub all_failed : errors ms ≡ map (λ st. (st.model_id, mode)) (failed_of (taken n events))
  pub all_fine :
      probabilities ms ≡ map (λ st. (st.model_id, mode, st.prob_attack)) (fine_of (taken n events))
  pub missing : timeouts ms ≡ due_timeouts mode n (length (taken n events))

-- A status more.
arrived-Accounts :
    (mode : WaitMode) (n : ℕ) (events : List WaitEvent) (ms : List Metric) (st : ModelStatus)
    → Accounts mode n events ms
    → Accounts mode
        (suc n)
        (arrived st ∷ events)
        (record_model_result st.model_id mode st.prob_attack st.error ++ ms)
unfolding taken durations errors probabilities timeouts failed_of fine_of record_model_result
arrived-Accounts mode n events ms st rest = elim (Option-cases st.error) [
  | inl fine ↦ record {
    all_timed = rw (fine, record_model_result) (ap (λ l. (st.model_id, mode) ∷ l) rest.all_timed);
    all_failed = rw (fine, record_model_result, failed_of) rest.all_failed;
    all_fine =
        rw (fine, record_model_result, fine_of)
          (ap (λ l. (st.model_id, mode, st.prob_attack) ∷ l) rest.all_fine);
    missing = rw (fine, record_model_result) (rest.missing ∙ due_timeouts-suc mode n _);
  }
  | inr (e, failed) ↦ record {
    all_timed = rw (failed, record_model_result) (ap (λ l. (st.model_id, mode) ∷ l) rest.all_timed);
    all_failed =
        rw (failed, record_model_result, failed_of)
          (ap (λ l. (st.model_id, mode) ∷ l) rest.all_failed);
    all_fine = rw (failed, record_model_result, fine_of) rest.all_fine;
    missing = rw (failed, record_model_result) (rest.missing ∙ due_timeouts-suc mode n _);
  }
]

-- When a loop has ended, each status that it has taken, up to the number of models or the end of
-- the context, is recorded in its order under the identifier of its model and the mode of the loop:
-- with a duration, and with an error if it reports one and else with its probability. If it has
-- taken fewer than there are models, the difference is recorded once as timed out, and else nothing
-- is.
pub wait_loop-Accounts :
    (mode : WaitMode) (n : ℕ) (events : List WaitEvent)
    → (wait_loop mode n events).ended ≡ true
    → Accounts mode n events (wait_loop mode n events).metrics
unfolding wait_loop taken durations errors probabilities timeouts failed_of fine_of record_timeouts
    due_timeouts
wait_loop-Accounts mode zero events h = record {
  all_timed = refl;
  all_failed = refl;
  all_fine = refl;
  missing = refl;
}
wait_loop-Accounts mode (suc n) [] h = cc
wait_loop-Accounts mode (suc n) (expired ∷ events) h = record {
  all_timed = refl;
  all_failed = refl;
  all_fine = refl;
  missing = ground arith;
}
wait_loop-Accounts mode (suc n) (arrived st ∷ events) h =
    arrived-Accounts mode n events (wait_loop mode n events).metrics st
      (wait_loop-Accounts mode n events h)

-- An event list that has an end of the context in it.
unfoldable pub expires : List WaitEvent → Bool
expires [] = false
expires (arrived st ∷ events) = expires events
expires (expired ∷ events) = true

-- A loop has ended exactly when as many statuses as it waits for have come, or the end of the
-- context has, so it never waits for more events than models.
pub wait_loop-ended_iff :
    (mode : WaitMode) (n : ℕ) (events : List WaitEvent)
    → ((wait_loop mode n events).ended ≡ true) ↔ ((n ≤ length events) ⊎ (expires events ≡ true))
unfolding wait_loop expires
wait_loop-ended_iff mode zero events = (λ _. inl (omega arith), λ _. refl)
wait_loop-ended_iff mode (suc n) [] = ground arith
wait_loop-ended_iff mode (suc n) (expired ∷ events) = (λ _. inr refl, λ _. refl)
wait_loop-ended_iff mode (suc n) (arrived st ∷ events) =
    let ih = wait_loop-ended_iff mode n events in ground (arith, ih)
