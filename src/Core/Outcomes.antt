-- ===== src/Core/Outcomes.antt =====
-- wacecore.go, callPlugins: what the sync calls of a transaction come to, without channels, queues and
-- pointers.
use mod_sec_intl_wace_lib.Base.{
  Error, List, Map, Option, Result, String, [], cannot_send, err, external, false, if◌then◌else◌,
  insert, lookup, model_not_found, none, ok, some, ◌=ₛ◌, ◌∷◌,
}
use Prim.Native.String
use mod_sec_intl_wace_lib.WaceApi.{Bytes, ModelInput, ModelResults}
use mod_sec_intl_wace_lib.PluginManager.Tx.{ModelStatus}
use mod_sec_intl_wace_lib.PluginManager.Process.{model_process, plugin_context}
use mod_sec_intl_wace_lib.PluginManager.Nats.{TransmissionResults, input_timeout}
use mod_sec_intl_wace_lib.PluginManager.NatsLaws.{failure_of, report_of}
use mod_sec_intl_wace_lib.Core.Dispatch.{
  Dispatch, async_queue, local_call, sync_queue, training_call,
}
use mod_sec_intl_wace_lib.Core.Phase.{Phase}

-- What a local call comes to.
unfoldable pub local_outcome : Phase → Dispatch → Result ModelResults
local_outcome p d = elim (lookup d.model p.loaded) [
  | none ↦ err (model_not_found d.model)
  | some mp ↦
      model_process p.plugins (some p.conf) p.ctx d.model mp
        (record { transaction_id = p.tx_id; payload = d.payload; training = false }) p.kind
]

-- What the plugin returns at the other end, for an input as it has been read there.
unfoldable pub remote_run : Phase → Dispatch → ModelInput → ModelResults × Option Error
unfolding input_timeout plugin_context
remote_run p d input =
    p.remote.plugins.run (p.remote.handle d.model)
      (plugin_context [] (input_timeout p.remote.config d.model)) input

-- What a report stands for where it has been read: an error if there is a text of one.
unfoldable pub result_of : TransmissionResults → Result ModelResults
result_of r =
    if r.error =ₛ ""
    then ok (record { prob_attack = r.prob_attack; value = r.value })
    else err (external r.error)

-- A report on the results queue of the model: the error if it cannot be sent, or else what it stands for
-- as it is read here, if it can be read.
unfoldable pub delivered :
    Phase → String → TransmissionResults → Result (Option (Result ModelResults))
unfolding result_of
delivered p id r = elim (p.messages.encode_results r) [
  | err e ↦ err e
  | ok text ↦ elim (p.messages.publish (String.◌++◌ id "/results") text) [
    | err e ↦ err e
    | ok _ ↦ elim (p.remote.decode_results text) [
      | none ↦ ok none
      | some r' ↦ ok (some (result_of r'))
    ]
  ]
]

-- What an input that has been sent comes to: what the plugin returns, or else the report that it cannot
-- be sent; or nothing, if the input cannot be read or no report can be sent or read.
unfoldable pub answered : Phase → Dispatch → Bytes → Option (Result ModelResults)
unfolding remote_run report_of failure_of delivered
answered p d text = elim (p.remote.decode_input text) [
  | none ↦ none
  | some input ↦
      elim (delivered p d.model
        (report_of p.messages input.transaction_id (remote_run p d input))) [
          | ok o ↦ o
          | err e ↦ elim (delivered p d.model (failure_of p.messages input.transaction_id e)) [
            | ok o ↦ o
            | err _ ↦ none
          ]
        ]
]

-- What a remote call comes to.
unfoldable pub remote_outcome : Phase → Dispatch → Option (Result ModelResults)
unfolding answered
remote_outcome p d =
    elim (p.messages.encode_input
      (record { transaction_id = p.tx_id; payload = d.payload; training = false })) [
        | err e ↦ some (err (cannot_send e))
        | ok text ↦ elim (p.messages.publish d.model text) [
          | err e ↦ some (err (cannot_send e))
          | ok _ ↦ answered p d text
        ]
      ]

-- `none` is a call that reports nothing.
unfoldable pub outcome : Phase → Dispatch → Option (Result ModelResults)
unfolding local_outcome remote_outcome
outcome p d = elim d.route [
  | async_queue ↦ none
  | training_call ↦ none
  | sync_queue ↦ remote_outcome p d
  | local_call ↦ some (local_outcome p d)
]

-- The status of an outcome, and what it leaves among the results.
unfoldable pub status_of : String → Result ModelResults → ModelStatus
status_of id (ok res) = record { model_id = id; prob_attack = res.prob_attack; error = none }
status_of id (err e) = record { model_id = id; prob_attack = 0; error = some e }

unfoldable pub store_outcome : String → Result ModelResults → Map ModelResults → Map ModelResults
store_outcome id (ok res) results = insert id res results
store_outcome id (err e) results = results

-- The statuses of the calls that report, in their order.
unfoldable pub statuses : Phase → List Dispatch → List ModelStatus
unfolding outcome status_of
statuses p [] = []
statuses p (d ∷ ds) =
    let rest = statuses p ds in
    elim (outcome p d) [ none ↦ rest | some r ↦ status_of d.model r ∷ rest ]

-- The results behind the calls.
unfoldable pub results_after : Phase → List Dispatch → Map ModelResults → Map ModelResults
unfolding outcome store_outcome
results_after p [] results = results
results_after p (d ∷ ds) results =
    results_after p ds
      (elim (outcome p d) [ none ↦ results | some r ↦ store_outcome d.model r results ])
