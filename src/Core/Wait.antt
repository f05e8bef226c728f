-- ===== src/Core/Wait.antt =====
-- wacecore.go, the waiting loops of callPlugins, with what metrics.go records; queue.go.
use mod_sec_intl_wace_lib.Base.{
  Bool, Error, List, Option, Result, String, [], cannot_send, err, false, none, ok, some, suc, true,
  zero, ℕ, ◌++◌, ◌∷◌,
}
use mod_sec_intl_wace_lib.WaceApi.{Bytes, HttpPayload}
use mod_sec_intl_wace_lib.ConfigStore.Defs.{Float64}
use mod_sec_intl_wace_lib.PluginManager.Tx.{ModelStatus}
use mod_sec_intl_wace_lib.PluginManager.Nats.{Messages, encode_model_input}

-- The attribute `model_mode`: the sync or the async loop.
pub data WaitMode : Type 0 where
  sync_wait async_wait : WaitMode

-- What is recorded.
pub data Metric : Type 0 where
  model_duration : String → WaitMode → Metric
  model_error : String → WaitMode → Metric
  attack_probability : String → WaitMode → Float64 → Metric
  model_timeouts : WaitMode → ℕ → Metric
  transaction_checked : Bool → Metric

-- `recordModelResult`
unfoldable pub record_model_result : String → WaitMode → Float64 → Option Error → List Metric
record_model_result id mode p none = model_duration id mode ∷ attack_probability id mode p ∷ []
record_model_result id mode p (some e) = model_duration id mode ∷ model_error id mode ∷ []

-- `recordTimeouts`
unfoldable pub record_timeouts : WaitMode → ℕ → List Metric
record_timeouts mode n = model_timeouts mode n ∷ []

-- `recordChecked`
unfoldable pub record_checked : Bool → List Metric
record_checked blocked = transaction_checked blocked ∷ []

-- What the `select` gives: a status of the channel, or the end of the context.
pub data WaitEvent : Type 0 where
  arrived : ModelStatus → WaitEvent
  expired : WaitEvent

-- What is recorded, and whether the loop has ended; if not, it blocks with no event left.
pub record Waited : Type 0 where
  pub metrics : List Metric
  pub ended : Bool

-- The loop, with the number of models that are still waited for. The events after its end are not
-- looked at.
unfoldable pub wait_loop : WaitMode → ℕ → List WaitEvent → Waited
unfolding record_model_result record_timeouts
wait_loop mode zero events = record { metrics = []; ended = true }
wait_loop mode (suc n) [] = record { metrics = []; ended = false }
wait_loop mode (suc n) (expired ∷ events) = record {
  metrics = record_timeouts mode (suc n);
  ended = true;
}
wait_loop mode (suc n) (arrived st ∷ events) =
    let rest = wait_loop mode n events in
    record {
      metrics = record_model_result st.model_id mode st.prob_attack st.error ++ rest.metrics;
      ended = rest.ended;
    }

-- `queueInput`: the encoding is made on the first call, and kept.
pub record QueueInput : Type 0 where
  pub transaction_id : String
  pub payload : HttpPayload
  pub kept : Option (Result Bytes)

-- `encode`
unfoldable pub encode : Messages → QueueInput → QueueInput × Result Bytes
encode m q = elim q.kept [
  | some r ↦ (q, r)
  | none ↦
      let r = encode_model_input m q.transaction_id q.payload in (record q { kept = some r }, r)
]

-- `sendToQueue`: the input afterwards, and the status that is sent when the model cannot be reached.
unfoldable pub send_to_queue : Messages → String → QueueInput → QueueInput × Option ModelStatus
unfolding encode
send_to_queue m id q =
    let (q', data') = encode m q in
    (
      q',
      elim data' [
        | err e ↦ some (record { model_id = id; prob_attack = 0; error = some (cannot_send e) })
        | ok text ↦ elim (m.publish id text) [
          | ok _ ↦ none
          | err e ↦ some (record { model_id = id; prob_attack = 0; error = some (cannot_send e) })
        ]
      ],
    )
