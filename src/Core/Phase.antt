-- ===== src/Core/Phase.antt =====
-- wacecore.go, callPlugins from its sync channel on, with queue.go and the two message handlers of
-- pluginmanager/pluginmanager.go: what the sync calls of a transaction do, in the order in which they
-- end. A remote call is followed through the process that runs the plugin and back.
use mod_sec_intl_wace_lib.Base.{
  List, Map, Option, String, [], err, none, ok, some, suc, zero, ℕ, ◌∷◌,
}
use mod_sec_intl_wace_lib.WaceApi.{Bytes, ModelInput}
use mod_sec_intl_wace_lib.ConfigStore.PluginType.{ModelPluginType}
use mod_sec_intl_wace_lib.ConfigStore.Defs.{ConfigPointer, ConfigStore}
use mod_sec_intl_wace_lib.PluginManager.Tx.{Store, add_sync_channel, make_chan, send}
use mod_sec_intl_wace_lib.PluginManager.Process.{Context, Handle, ModelPluginData, Plugins, process}
use mod_sec_intl_wace_lib.PluginManager.Nats.{
  Messages, TransmissionResults, encode_model_input, handle_model_input, handle_model_result,
}
use mod_sec_intl_wace_lib.Core.Dispatch.{
  Dispatch, async_queue, local_call, sync_queue, training_call,
}
use mod_sec_intl_wace_lib.Core.Wait.{QueueInput, send_to_queue}

-- The process at the other end of the queues: its plugins and its configuration, and what the
-- decoding of JSON makes of a message.
pub record Remote : Type 0 where
  pub plugins : Plugins
  pub config : ConfigPointer
  pub handle : String → Handle
  pub decode_input : Bytes → Option ModelInput
  pub decode_results : Bytes → Option TransmissionResults

-- What a call of callPlugins works with: the plugins of this process, the messages and the other
-- process, the configuration, the context of the sync calls, the transaction, the type of the models,
-- and the sync channel.
pub record Phase : Type 0 where
  pub plugins : Plugins
  pub loaded : Map ModelPluginData
  pub messages : Messages
  pub remote : Remote
  pub conf : ConfigStore
  pub ctx : Context
  pub tx_id : String
  pub kind : ModelPluginType
  pub chan : ℕ

-- The sync channel, with room for `n` statuses, if there is a sync call.
unfoldable pub open_channel : Store → String → ModelPluginType → ℕ → Store
unfolding make_chan add_sync_channel
open_channel s tx_id t zero = s
open_channel s tx_id t (suc n) = let (s', c) = make_chan s (suc n) in add_sync_channel s' tx_id t c

-- A message on the results queue, as it arrives.
unfoldable pub arriving : Phase → TransmissionResults → Option TransmissionResults
arriving p r = elim (p.messages.encode_results r) [
  | err e ↦ none
  | ok text ↦ p.remote.decode_results text
]

unfoldable pub receive_all : Phase → String → List TransmissionResults → Store → Store
unfolding arriving
receive_all p id [] s = s
receive_all p id (r ∷ rs) s =
    receive_all p id rs (handle_model_result (some p.conf) id (arriving p r) s)

-- What the other process sends for a published input.
unfoldable pub remote_answers : Phase → Dispatch → List TransmissionResults
remote_answers p d = elim (encode_model_input p.messages p.tx_id d.payload) [
  | err e ↦ []
  | ok text ↦
      handle_model_input p.messages p.remote.plugins p.remote.config d.model
        (p.remote.handle d.model) (p.remote.decode_input text)
]

-- A call over the queue. The text that `queueInput` keeps is that of the first encoding.
unfoldable pub remote_call : Phase → Dispatch → Store → Option Store
unfolding receive_all remote_answers
remote_call p d s =
    let q : QueueInput = record { transaction_id = p.tx_id; payload = d.payload; kept = none } in
    elim (send_to_queue p.messages d.model q).1 [
      | some status ↦ send s p.chan status
      | none ↦ some (receive_all p d.model (remote_answers p d) s)
    ]

-- A call in a goroutine; `none` where it blocks on the channel.
unfoldable pub local_process : Phase → Dispatch → Store → Option Store
local_process p d s =
    let (s', status) =
      process p.plugins (some p.conf) p.loaded s p.ctx d.model p.tx_id d.payload p.kind in
    send s' p.chan status

-- A call by its route. Calls in training and of async models do not touch the sync channel.
unfoldable pub end_call : Phase → Dispatch → Store → Option Store
unfolding remote_call local_process
end_call p d s = elim d.route [
  | async_queue ↦ some s
  | training_call ↦ some s
  | sync_queue ↦ remote_call p d s
  | local_call ↦ local_process p d s
]

-- The calls, in the order in which they end.
unfoldable pub end_calls : Phase → List Dispatch → Store → Option Store
unfolding end_call
end_calls p [] s = some s
end_calls p (d ∷ ds) s = elim (end_call p d s) [ none ↦ none | some s' ↦ end_calls p ds s' ]
