-- ===== src/Core/Dispatch.antt =====
-- wacecore.go, callPlugins up to the calls of the plugins: the models are sorted out and counted, and
-- each is called the way its configuration says.
use mod_sec_intl_wace_lib.Base.{
  Bool, List, Map, Option, Result, String, [], eqb_int, err, false, if◌then◌else◌, lookup, none,
  not, not_in_analysis_map, ok, pos, some, true, ℕ, ◌&&◌, ◌++◌, ◌+◌, ◌∷◌,
}
use mod_sec_intl_wace_lib.WaceApi.{Bytes, HttpPayload}
use mod_sec_intl_wace_lib.ConfigStore.PluginType.{ModelPluginType}
use mod_sec_intl_wace_lib.ConfigStore.Defs.{
  ConfigPointer, ConfigStore, get, is_async, is_in_training, is_remote, should_sanitize,
}
use mod_sec_intl_wace_lib.Sanitize.Headers.{sanitize_credentials}

-- What the first loop counts.
pub record Tally : Type 0 where
  pub sync_counter : ℕ
  pub async_counter : ℕ
  pub filtered_models : List String
  pub should_mask : Bool

abbrev pub no_tally : Tally
no_tally = record { sync_counter = 0; async_counter = 0; filtered_models = []; should_mask = false }

-- A model that is kept: the cases of the `switch` behind the two that skip, and the test after it.
unfoldable pub keep : ConfigStore → String → Tally → Tally
keep conf id y =
    let y' = record y {
      filtered_models = y.filtered_models ++ (id ∷ []);
      should_mask = if not y.should_mask && should_sanitize conf id then true else y.should_mask;
    } in
    if is_async conf id
    then record y' { async_counter = y.async_counter + 1 }
    else if is_in_training conf id
    then y'
    else record y' { sync_counter = y.sync_counter + 1 }

-- Whether a model is configured for the type `t`; the others are logged and skipped.
unfoldable pub accepts : ConfigStore → ModelPluginType → String → Bool
unfolding eqb_int
accepts conf t id = elim (lookup id conf.model_plugins) [
  | none ↦ false
  | some mp ↦ eqb_int mp.plugin_type t
]

-- The first loop.
unfoldable pub tally : ConfigStore → ModelPluginType → List String → Tally → Tally
tally conf t [] y = y
tally conf t (id ∷ models) y = tally conf t models (if accepts conf t id then keep conf id y else y)

-- How a model is called: on the queue for the async status channel, in training, on the queue for
-- the sync status channel, or in a goroutine for the sync status channel.
pub data Route : Type 0 where
  async_queue training_call sync_queue local_call : Route

unfoldable pub route : ConfigStore → String → Route
route conf id =
    if is_async conf id
    then async_queue
    else if is_in_training conf id
    then training_call
    else if is_remote conf id
    then sync_queue
    else local_call

-- One call: the model, its route, and the payload that it gets.
pub record Dispatch : Type 0 where
  pub model : String
  pub route : Route
  pub payload : HttpPayload

-- `var sanitizedPayload waceapi.HTTPPayload`
abbrev pub zero_payload : HttpPayload
zero_payload = record {
  uri = [];
  method = [];
  http_version = [];
  request_headers = [];
  request_body = [];
  response_protocol = [];
  response_code = pos 0;
  response_headers = [];
  response_body = [];
}

-- The second loop.
unfoldable pub dispatches : ConfigStore → List String → HttpPayload → HttpPayload → List Dispatch
unfolding route
dispatches conf [] input sanitized = []
dispatches conf (id ∷ models) input sanitized =
    (record {
      model = id;
      route = route conf id;
      payload = if should_sanitize conf id then sanitized else input;
    })
    ∷ dispatches conf models input sanitized

-- `sanitizedPayload` after the `if`; `none` where `sanitizeCredentials` has not returned.
unfoldable pub sanitized_payload :
    (Bytes → Bytes → Bool) → ConfigStore → Tally → HttpPayload → Option HttpPayload
sanitized_payload equal_fold conf y input =
    if y.should_mask
    then sanitize_credentials equal_fold input conf.credential_headers
    else some zero_payload

-- The counters, which are the capacities of the two status channels, and the calls that are made.
pub record Launch : Type 0 where
  pub sync_counter : ℕ
  pub async_counter : ℕ
  pub calls : List Dispatch

-- `callPlugins` from its first loop up to the waiting loops.
unfoldable pub launch :
    (Bytes → Bytes → Bool)
    → ConfigStore
    → HttpPayload
    → List String
    → ModelPluginType
    → Option Launch
launch equal_fold conf input models t =
    let y = tally conf t models no_tally in
    elim (sanitized_payload equal_fold conf y input) [
      | none ↦ none
      | some masked ↦ some (record {
        sync_counter = y.sync_counter;
        async_counter = y.async_counter;
        calls = dispatches conf y.filtered_models input masked;
      })
    ]

-- `callPlugins` up to the waiting loops: without an entry for the transaction or a configuration it
-- returns an error.
unfoldable pub call_plugins :
    (Bytes → Bytes → Bool)
    → Map ℕ
    → ConfigPointer
    → HttpPayload
    → List String
    → ModelPluginType
    → String
    → Result (Option Launch)
unfolding launch
call_plugins equal_fold analysis config input models t tx_id = elim (lookup tx_id analysis) [
  | none ↦ err (not_in_analysis_map tx_id)
  | some counter ↦ elim (get config) [
    | err e ↦ err e
    | ok conf ↦ ok (launch equal_fold conf input models t)
  ]
]
