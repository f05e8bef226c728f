-- ===== src/Core/MessageLaws.antt =====
-- wacecore.go, sendToQueue, with handleModelInput and handleModelResult of pluginmanager/
-- pluginmanager.go: what arrives of what is sent over the queues.
use mod_sec_intl_wace_lib.Base.{
  Error, Option, Option-cases, Result, Result-cases, String, [], ap, arith, err, inl, inr, none, ok,
  refl, some, ◌∷◌, ◌≡◌, ◌⊎◌,
}
use mod_sec_intl_wace_lib.WaceApi.{Bytes, ModelInput, ModelResults}
use mod_sec_intl_wace_lib.PluginManager.Nats.{
  TransmissionResults, encode_model_input, handle_model_input, handle_model_result, publish_results,
  results_subject,
}
use mod_sec_intl_wace_lib.PluginManager.NatsLaws.{
  answer-report_of, error_answer-failure_of, failure_of, report_of,
}
use mod_sec_intl_wace_lib.Core.Dispatch.{
  Dispatch, Route, async_queue, local_call, sync_queue, training_call,
}
use mod_sec_intl_wace_lib.Core.SettleLaws.{KeepsId}
use mod_sec_intl_wace_lib.PluginManager.Tx.{Store}
use mod_sec_intl_wace_lib.Core.Wait.{encode, send_to_queue}
use mod_sec_intl_wace_lib.Core.Phase.{
  Phase, arriving, end_call, receive_all, remote_answers, remote_call,
}
use mod_sec_intl_wace_lib.Core.Outcomes.{
  answered, delivered, outcome, remote_outcome, remote_run, result_of,
}

-- What a result stands for when it arrives.
abbrev pub received : Phase → TransmissionResults → Option (Result ModelResults)
received p r = elim (arriving p r) [ none ↦ none | some r' ↦ some (result_of r') ]

delivered-publish_results :
    (p : Phase) (id : String) (r : TransmissionResults)
    → delivered p id r
      ≡ elim (publish_results p.messages id r) [ err e ↦ err e | ok _ ↦ ok (received p r) ]
unfolding delivered publish_results arriving results_subject
delivered-publish_results p id r = ground arith

-- The other process sends nothing and nothing is due, or it sends one result, for the transaction, and
-- what is due is what that stands for when it arrives.
abbrev pub SendsWhatIsDue : Phase → Dispatch → Bytes → Type 0
SendsWhatIsDue p d text =
    ((remote_answers p d ≡ []) × (answered p d text ≡ none))
    ⊎ ((r : TransmissionResults) × (remote_answers p d ≡ r ∷ [])
        × (answered p d text ≡ received p r)
        × (r.transaction_id ≡ p.tx_id))

delivered-sent :
    (p : Phase) (id : String) (r : TransmissionResults) (u : Unit {0})
    → publish_results p.messages id r ≡ ok u
    → delivered p id r ≡ ok (received p r)
delivered-sent p id r u h = rw (delivered-publish_results p id r, h)

delivered-lost :
    (p : Phase) (id : String) (r : TransmissionResults) (e : Error)
    → publish_results p.messages id r ≡ err e
    → delivered p id r ≡ err e
delivered-lost p id r e h = rw (delivered-publish_results p id r, h)

-- The answers to an input that has been read, and what is due for it.
read-SendsWhatIsDue :
    (p : Phase) (d : Dispatch) (text : Bytes) (input : ModelInput)
    → input.transaction_id ≡ p.tx_id
    → encode_model_input p.messages p.tx_id d.payload ≡ ok text
    → p.remote.decode_input text ≡ some input
    → SendsWhatIsDue p d text
unfolding remote_answers answered remote_run handle_model_input
read-SendsWhatIsDue p d text input same enc read =
    let id = input.transaction_id in
    let first = report_of p.messages id (remote_run p d input) in
    elim (Result-cases (publish_results p.messages d.model first)) [
      | inr (u, sent) ↦ inr (
        first,
        rw (enc, remote_answers)
            (rw (read, handle_model_input)
              (rw (answer-report_of, handle_model_input)
                (rw sent
                  (ap (λ x. x ∷ []) (answer-report_of p.messages id (remote_run p d input)))))),
        rw (read, answered) (rw (delivered-sent p d.model first u sent)),
        same,
      )
      | inl (e, lost) ↦
          let second = failure_of p.messages id e in
          elim (Result-cases (publish_results p.messages d.model second)) [
            | inr (u, sent) ↦ inr (
              second,
              rw (enc, remote_answers)
                  (rw (read, handle_model_input)
                    (rw (answer-report_of, handle_model_input)
                      (rw (lost, error_answer-failure_of)
                        (rw sent (ap (λ x. x ∷ []) (error_answer-failure_of p.messages id e)))))),
              rw (read, answered)
                  (rw (delivered-lost p d.model first e lost, answered)
                    (rw (delivered-sent p d.model second u sent))),
              same,
            )
            | inl (e', lost') ↦ inl (
              rw (enc, remote_answers)
                  (rw (read, handle_model_input)
                    (rw (answer-report_of, handle_model_input)
                      (rw (lost, error_answer-failure_of) (rw lost')))),
              rw (read, answered)
                  (rw (delivered-lost p d.model first e lost, answered)
                    (rw (delivered-lost p d.model second e' lost'))),
            )
          ]
    ]

-- Every answer of the other process is due.
pub remote_answers-SendsWhatIsDue :
    (p : Phase) (d : Dispatch) (text : Bytes)
    → KeepsId p
    → encode_model_input p.messages p.tx_id d.payload ≡ ok text
    → SendsWhatIsDue p d text
unfolding remote_answers answered handle_model_input encode_model_input
remote_answers-SendsWhatIsDue p d text keeps enc =
    elim (Option-cases (p.remote.decode_input text)) [
      | inl lost ↦
          inl (rw (enc, remote_answers) (rw (lost, handle_model_input)), rw (lost, answered))
      | inr (input, read) ↦
          read-SendsWhatIsDue p d text input (keeps.inputs _ input text enc read refl) enc read
    ]

-- A result that arrives is still one for the transaction.
pub arriving-id :
    (p : Phase) (r r' : TransmissionResults)
    → KeepsId p
    → r.transaction_id ≡ p.tx_id
    → arriving p r ≡ some r'
    → r'.transaction_id ≡ p.tx_id
unfolding arriving
arriving-id p r r' keeps same at = elim (Result-cases (p.messages.encode_results r)) [
  | inl (e, bad) ↦ ground (arith, at, bad)
  | inr (text, enc) ↦ keeps.results r r' text enc (rw (enc, arriving) at at) same
]

-- What is sent changes nothing where nothing is due.
answered-silent :
    (p : Phase) (d : Dispatch) (text : Bytes) (s : Store)
    → SendsWhatIsDue p d text
    → answered p d text ≡ none
    → receive_all p d.model (remote_answers p d) s ≡ s
unfolding receive_all handle_model_result
answered-silent p d text s (inl (nothing, due)) silent = rw (nothing, receive_all)
answered-silent p d text s (inr (r, sent, due, same)) silent = elim (Option-cases (arriving p r)) [
  | inl lost ↦ rw (sent, receive_all) (rw (lost, handle_model_result))
  | inr (r', at) ↦ ground (arith, silent, due, at)
]

remote_call-silent :
    (p : Phase) (d : Dispatch) (s : Store)
    → KeepsId p
    → remote_outcome p d ≡ none
    → remote_call p d s ≡ some s
unfolding remote_call remote_outcome send_to_queue encode encode_model_input
remote_call-silent p d s keeps silent =
    elim (Result-cases (encode_model_input p.messages p.tx_id d.payload)) [
      | inl (e, bad) ↦ ground (arith, silent, bad)
      | inr (text, enc) ↦ elim (Result-cases (p.messages.publish d.model text)) [
        | inl (e, bad) ↦ ground (arith, silent, enc, bad)
        | inr (u, sent) ↦
            rw (enc, remote_call)
              (rw
                (
                  sent,
                  answered-silent p d text s (remote_answers-SendsWhatIsDue p d text keeps enc)
                      (rw (enc, remote_outcome, sent) at silent),
                )
                refl)
      ]
    ]

pub end_call-silent :
    (p : Phase) (d : Dispatch) (s : Store)
    → KeepsId p
    → outcome p d ≡ none
    → end_call p d s ≡ some s
unfolding end_call outcome
end_call-silent p d s keeps silent = go d.route refl
  where
    go : (r : Route) → d.route ≡ r → end_call p d s ≡ some s
    go async_queue e = rw (e, end_call) refl
    go training_call e = rw (e, end_call) refl
    go sync_queue e = rw (e, end_call) (remote_call-silent p d s keeps (rw (e, outcome) at silent))
    go local_call e = ground (arith, silent, e)
