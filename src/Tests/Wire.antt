-- ===== src/Tests/Wire.antt =====
-- A process for remote models, and how the tests write its messages.
use mod_sec_intl_wace_lib.Base.{
  Option, [], arith, false, if◌then◌else◌, none, ok, pos, some, true, ◌=ₛ◌, ◌∷◌, ◌≡◌,
}
use mod_sec_intl_wace_lib.WaceApi.{Bytes, HttpPayload, ModelInput}
use mod_sec_intl_wace_lib.ConfigStore.Defs.{ConfigFileModelPlugin, ConfigStore}
use mod_sec_intl_wace_lib.PluginManager.Nats.{TransmissionResults}
use mod_sec_intl_wace_lib.Core.Dispatch.{zero_payload}
use mod_sec_intl_wace_lib.Core.Phase.{Phase}
use mod_sec_intl_wace_lib.Core.SettleLaws.{KeepsId}
use mod_sec_intl_wace_lib.Tests.Data.{config_of, loaded_models, store, strict, trivial_file}

-- A request of which only the URI is not empty.
abbrev pub only_uri : Bytes → HttpPayload
only_uri text = record zero_payload { uri = text }

abbrev input_of : Bytes → Option ModelInput
input_of text = some (record { transaction_id = "tx"; payload = only_uri text; training = false })

-- The text of an error is not sent.
abbrev results_text : TransmissionResults → Bytes
results_text r =
    if r.error =ₛ "" then r.prob_attack ∷ r.value ∷ [] else r.prob_attack ∷ r.value ∷ 0 ∷ []

abbrev results_of : Bytes → Option TransmissionResults
results_of (p ∷ v ∷ []) =
    some (record { transaction_id = "tx"; prob_attack = p; value = v; error = "" })
results_of (p ∷ v ∷ _ ∷ _) =
    some (record { transaction_id = "tx"; prob_attack = p; value = v; error = "failed" })
results_of (p ∷ []) = none
results_of [] = none

results_of-id :
    (text : Bytes) (r : TransmissionResults) → results_of text ≡ some r → r.transaction_id ≡ "tx"
results_of-id [] r h = cc
results_of-id (p ∷ []) r h = cc
results_of-id (p ∷ v ∷ []) r h = ground (arith, h)
results_of-id (p ∷ v ∷ x ∷ xs) r h = ground (arith, h)

abbrev far_file : ConfigFileModelPlugin
far_file = record trivial_file { id = "far"; remote = true }

abbrev pub far_store : ConfigStore
far_store = record store {
  model_plugins = ("trivial", config_of trivial_file) ∷ ("far", config_of far_file) ∷ [];
}

abbrev pub far_phase : Phase
far_phase = record {
  plugins = strict;
  loaded = loaded_models;
  messages = record {
    encode_input = λ i. ok i.payload.uri;
    encode_results = λ r. ok (results_text r);
    publish = λ subject text. ok tt;
    error_text = λ e. "failed";
  };
  remote = record {
    plugins = strict;
    config = some far_store;
    handle = λ id. 5;
    decode_input = input_of;
    decode_results = results_of;
  };
  conf = far_store;
  ctx = [];
  tx_id = "tx";
  kind = pos 0;
  chan = 1;
}

pub far_phase-KeepsId : KeepsId far_phase
far_phase-KeepsId = record {
  inputs = λ i i' text e read same. ground (arith, read);
  results = λ r r' text e read same. results_of-id text r' read;
}
