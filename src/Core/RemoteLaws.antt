-- ===== src/Core/RemoteLaws.antt =====
-- wacecore.go, sendToQueue, with handleModelInput and handleModelResult of pluginmanager/
-- pluginmanager.go: a sync call over the queue and a call in this process have the same effects.
use mod_sec_intl_wace_lib.Base.{
  Bool-cases, Map, Option, Option-cases, Result, Result-cases, String, [], arith, eqb_int_iff,
  external, false, inl, inr, length, lookup, none, refl, some, sym, true, ℕ, ◌<◌, ◌=ₛ◌, ◌∷◌, ◌≡◌,
}
use mod_sec_intl_wace_lib.WaceApi.{Bytes, ModelResults}
use mod_sec_intl_wace_lib.ConfigStore.Defs.{ModelPluginConfig, is_async}
use mod_sec_intl_wace_lib.PluginManager.Tx.{Chan, Store, store_result, sync_channel}
use mod_sec_intl_wace_lib.PluginManager.Process.{deliver}
use mod_sec_intl_wace_lib.PluginManager.Nats.{
  TransmissionResults, accept_result, encode_model_input, handle_model_result, keep_result,
}
use mod_sec_intl_wace_lib.PluginManager.NatsLaws.{
  accept_result-failed, accept_result-fine, waiting_channel-sync,
}
use mod_sec_intl_wace_lib.Core.Dispatch.{
  Dispatch, Route, accepts, async_queue, local_call, route, sync_queue, training_call,
}
use mod_sec_intl_wace_lib.Core.Wait.{encode, send_to_queue}
use mod_sec_intl_wace_lib.Core.Phase.{
  Phase, arriving, end_call, receive_all, remote_answers, remote_call,
}
use mod_sec_intl_wace_lib.Core.Outcomes.{answered, outcome, remote_outcome, result_of}
use mod_sec_intl_wace_lib.Core.SettleLaws.{
  KeepsId, Waits, local_process-settle, notify-room, settle,
}
use mod_sec_intl_wace_lib.Core.MessageLaws.{
  SendsWhatIsDue, arriving-id, received, remote_answers-SendsWhatIsDue,
}

store_result-chans :
    (s : Store) (a : ℕ) (id : String) (res : ModelResults)
    → (store_result s a id res).chans ≡ s.chans
unfolding store_result
store_result-chans s a id res = ground arith

sync_channel-Waits :
    (p : Phase) (s : Store) (a : ℕ) (results : Map ModelResults) (ch : Chan)
    → Waits p s a results ch
    → sync_channel s a p.kind ≡ some p.chan
unfolding sync_channel
sync_channel-Waits p s a results ch w =
    let (tx, at, same, chan) = w.holds in rw (at, sync_channel) chan

-- A sync model of the type of the phase.
abbrev pub IsCalled : Phase → String → Type 0
IsCalled p id =
    (conf : ModelPluginConfig) × (lookup id p.conf.model_plugins ≡ some conf)
    × (conf.plugin_type ≡ p.kind)
    × (is_async p.conf id ≡ false)

-- A call as callPlugins makes it: of a model that is configured for the type, by its route.
abbrev pub IsDue : Phase → Dispatch → Type 0
IsDue p d = (accepts p.conf p.kind d.model ≡ true) × (d.route ≡ route p.conf d.model)

IsDue-IsCalled : (p : Phase) (d : Dispatch) → IsDue p d → d.route ≡ sync_queue → IsCalled p d.model
unfolding accepts route
IsDue-IsCalled p d (taken, routed) queued =
    elim (Option-cases (lookup d.model p.conf.model_plugins)) [
      | inl missing ↦ ground (arith, taken, missing)
      | inr (conf, found) ↦ (
        conf,
        found,
        (eqb_int_iff conf.plugin_type p.kind).0 (ground (arith, taken, found)),
        ground (arith, routed, queued),
      )
    ]

-- The effect of an outcome, if there is one.
abbrev pub settle_if : Phase → Store → String → Option (Result ModelResults) → Option Store
settle_if p s id o = elim o [ none ↦ some s | some r ↦ settle p id r s ]

module _ (p : Phase) (s : Store) (a : ℕ) (results : Map ModelResults) (ch : Chan)
    (w : Waits p s a results ch) (room : length ch.buffer < ch.capacity) where
  accept_result-settle :
      (id : String) (r : TransmissionResults)
      → settle p id (result_of r) s ≡ some (accept_result s id r (p.chan, some a))
  unfolding settle deliver result_of keep_result
  accept_result-settle id r = elim (Bool-cases (r.error =ₛ "")) [
    | inl fine ↦
        let res : ModelResults = record { prob_attack = r.prob_attack; value = r.value } in
        rw (fine, result_of)
          (rw (w.opened, deliver, accept_result-fine s id r p.chan (some a) fine)
            (notify-room (store_result s a id res) p.chan
              (record { model_id = id; prob_attack = r.prob_attack; error = none }) ch
              (rw (store_result-chans s a id res) w.channel) room))
    | inr failed ↦
        rw (failed, result_of)
          (rw (accept_result-failed s id r p.chan (some a) failed) (
            notify-room s p.chan
              (record { model_id = id; prob_attack = 0; error = some (external r.error) }) ch
              w.channel room))
  ]

  -- A result that arrives has the effect of its outcome.
  handle_model_result-settle :
      (id : String) (r : TransmissionResults)
      → IsCalled p id
      → r.transaction_id ≡ p.tx_id
      → settle p id (result_of r) s ≡ some (handle_model_result (some p.conf) id (some r) s)
  unfolding handle_model_result result_of
  handle_model_result-settle id r (conf, found, typed, sync) same =
      rw (found, handle_model_result)
        (rw
          (
            sync,
            typed,
            same,
            waiting_channel-sync s p.tx_id p.kind a p.chan w.opened
                (sync_channel-Waits p s a results ch w),
          )
          (accept_result-settle id r))

  module _ (keeps : KeepsId p) where
    -- One result that has been sent has the effect of what it stands for when it arrives.
    receive_all-settle :
        (id : String) (r : TransmissionResults)
        → IsCalled p id
        → r.transaction_id ≡ p.tx_id
        → some (receive_all p id (r ∷ []) s) ≡ settle_if p s id (received p r)
    unfolding receive_all handle_model_result
    receive_all-settle id r called same = elim (Option-cases (arriving p r)) [
      | inl lost ↦ rw (lost, receive_all, settle_if) refl
      | inr (r', at) ↦
          rw (at, receive_all, settle_if)
            (sym (handle_model_result-settle id r' called (arriving-id p r r' keeps same at)))
    ]

    answered-settle :
        (d : Dispatch) (text : Bytes)
        → IsCalled p d.model
        → SendsWhatIsDue p d text
        → some (receive_all p d.model (remote_answers p d) s)
          ≡ settle_if p s d.model (answered p d text)
    unfolding receive_all
    answered-settle d text called (inl (nothing, due)) = rw (nothing, due)
    answered-settle d text called (inr (r, sent, due, same)) =
        rw (sent, due) (receive_all-settle d.model r called same)

    pub remote_call-settle :
        (d : Dispatch)
        → IsCalled p d.model
        → remote_call p d s ≡ settle_if p s d.model (remote_outcome p d)
    unfolding remote_call remote_outcome send_to_queue encode settle deliver encode_model_input
    remote_call-settle d called =
        elim (Result-cases (encode_model_input p.messages p.tx_id d.payload)) [
          | inl (e, bad) ↦ rw (bad, remote_call, remote_outcome) refl
          | inr (text, enc) ↦
              rw (enc, remote_call, remote_outcome)
                (elim (Result-cases (p.messages.publish d.model text)) [
                  | inl (e, bad) ↦ rw (bad, remote_call, remote_outcome) refl
                  | inr (u, sent) ↦
                      rw (sent, remote_call, remote_outcome)
                        (answered-settle d text called
                          (remote_answers-SendsWhatIsDue p d text keeps enc))
                ])
        ]

    -- A sync call over the queue, through the process that runs the plugin and back, does the same
    -- to the transaction and its channel as a call in this process would whose outcome is what is
    -- read of the report on it: its results are stored if the error text that is read is empty, and
    -- else the error is reported by that text. An input that cannot be sent is reported as such; in
    -- place of a report that cannot be sent one of that failure is, if it can be; and where nothing
    -- is read, nothing changes. The model is configured for the type and called by its route, the
    -- identifier of the transaction survives JSON, the transaction waits on the channel, and the
    -- channel has room.
    pub end_call-settle :
        (d : Dispatch) → IsDue p d → end_call p d s ≡ settle_if p s d.model (outcome p d)
    unfolding end_call outcome
    end_call-settle d due = go d.route refl
      where
        go : (r : Route) → d.route ≡ r → end_call p d s ≡ settle_if p s d.model (outcome p d)
        go async_queue e = rw (e, end_call, outcome) refl
        go training_call e = rw (e, end_call, outcome) refl
        go sync_queue e =
            rw (e, end_call, outcome) (remote_call-settle d (IsDue-IsCalled p d due e))
        go local_call e = rw (e, end_call, outcome) (local_process-settle p s d)
