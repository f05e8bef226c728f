-- ===== src/Core/SettleLaws.antt =====
-- wacecore.go, callPlugins: what one sync call, local or over the queue, does to its transaction and to
-- the sync channel.
use mod_sec_intl_wace_lib.Base.{
  List, Map, Option, Result, String, [], ap, arith, err, get_elem?, get_elem?-lt, get_elem?-set,
  insert, length, none, ok, set, some, ℕ, ◌++◌, ◌<◌, ◌∷◌, ◌≡◌,
}
use mod_sec_intl_wace_lib.WaceApi.{Bytes, ModelInput, ModelResults}
use mod_sec_intl_wace_lib.PluginManager.Tx.{
  Chan, ModelStatus, Store, SyncTx, channel_at, load_sync_tx, notify_status, send, store_result,
}
use mod_sec_intl_wace_lib.PluginManager.Process.{deliver, process}
use mod_sec_intl_wace_lib.PluginManager.Nats.{TransmissionResults}
use mod_sec_intl_wace_lib.Core.Dispatch.{Dispatch}
use mod_sec_intl_wace_lib.Core.Phase.{Phase, local_process}
use mod_sec_intl_wace_lib.Core.Outcomes.{local_outcome, status_of, store_outcome}

-- The identifier of the transaction is read as it was written, which JSON does where it is valid
-- UTF-8. Nothing is supposed of the other data, nor that a message can be read at all.
pub record KeepsId (p : Phase) : Type 0 where
  pub inputs :
      (i i' : ModelInput) (text : Bytes)
      → p.messages.encode_input i ≡ ok text
      → p.remote.decode_input text ≡ some i'
      → i.transaction_id ≡ p.tx_id
      → i'.transaction_id ≡ p.tx_id
  pub results :
      (r r' : TransmissionResults) (text : Bytes)
      → p.messages.encode_results r ≡ ok text
      → p.remote.decode_results text ≡ some r'
      → r.transaction_id ≡ p.tx_id
      → r'.transaction_id ≡ p.tx_id

-- The transaction is open at `a` with these results, and its channel for the type is the sync channel,
-- with these statuses.
pub record Waits (p : Phase) (s : Store) (a : ℕ) (results : Map ModelResults) (ch : Chan)
    : Type 0 where
  pub opened : load_sync_tx s p.tx_id ≡ some a
  pub holds :
      (tx : SyncTx) × (get_elem? s.sync_heap a ≡ some tx)
      × (tx.results ≡ results)
      × (channel_at tx.channels p.kind ≡ some p.chan)
  pub channel : get_elem? s.chans p.chan ≡ some ch

abbrev pub filled : Chan → ModelStatus → Chan
filled ch status = record ch { buffer = ch.buffer ++ (status ∷ []) }

-- A result is delivered, and its status sent.
unfoldable pub settle : Phase → String → Result ModelResults → Store → Option Store
settle p id r s =
    let (s', status) = deliver p.plugins (some p.conf) s id p.tx_id r in send s' p.chan status

pub send-room :
    (s : Store) (c : ℕ) (status : ModelStatus) (ch : Chan)
    → get_elem? s.chans c ≡ some ch
    → length ch.buffer < ch.capacity
    → send s c status ≡ some (record s { chans = set s.chans c (filled ch status) })
unfolding send
send-room s c status ch at room = ground (arith, at)

pub notify-room :
    (s : Store) (c : ℕ) (status : ModelStatus) (ch : Chan)
    → get_elem? s.chans c ≡ some ch
    → length ch.buffer < ch.capacity
    → send s c status ≡ some (notify_status s c status)
unfolding notify_status send
notify-room s c status ch at room = ground (arith, at)

get_elem?-filled :
    (chans : List Chan) (c : ℕ) (ch ch' : Chan)
    → get_elem? chans c ≡ some ch
    → get_elem? (set chans c ch') c ≡ some ch'
get_elem?-filled chans c ch ch' at =
    ground (arith, get_elem?-set chans c c ch' (get_elem?-lt chans c ch at))

store_result-at :
    (s : Store) (a : ℕ) (id : String) (res : ModelResults) (tx : SyncTx)
    → get_elem? s.sync_heap a ≡ some tx
    → store_result s a id res ≡ record s {
      sync_heap = set s.sync_heap a (record tx { results = insert id res tx.results });
    }
unfolding store_result
store_result-at s a id res tx at = ground (arith, at)

module _ (p : Phase) (s : Store) (a : ℕ) (results : Map ModelResults) (ch : Chan)
    (w : Waits p s a results ch) (room : length ch.buffer < ch.capacity) where
  -- Where there is room, a settled result is stored and its status comes last on the channel.
  pub settle-Waits :
      (id : String) (r : Result ModelResults)
      → (s' : Store) × (settle p id r s ≡ some s')
        × Waits p s' a (store_outcome id r results) (filled ch (status_of id r))
  unfolding settle deliver status_of store_outcome load_sync_tx
  settle-Waits id (err e) =
      let status : ModelStatus = record { model_id = id; prob_attack = 0; error = some e } in
      (
        record s { chans = set s.chans p.chan (filled ch status) },
        send-room s p.chan status ch w.channel room,
        record {
          opened = w.opened;
          holds = w.holds;
          channel = get_elem?-filled s.chans p.chan ch (filled ch status) w.channel;
        },
      )
  settle-Waits id (ok res) =
      let status : ModelStatus = record {
        model_id = id;
        prob_attack = res.prob_attack;
        error = none;
      } in
      let (tx, at, same, chan) = w.holds in
      let tx' : SyncTx = record tx { results = insert id res tx.results } in
      let stored : Store = record s { sync_heap = set s.sync_heap a tx' } in
      (
        record stored { chans = set s.chans p.chan (filled ch status) },
        rw (w.opened, deliver)
            (rw (store_result-at s a id res tx at)
              (send-room stored p.chan status ch w.channel room)),
        record {
          opened = w.opened;
          holds = (
            tx',
            ground (arith, get_elem?-set s.sync_heap a a tx' (get_elem?-lt s.sync_heap a tx at)),
            ap (insert id res) same,
            chan,
          );
          channel = get_elem?-filled s.chans p.chan ch (filled ch status) w.channel;
        },
      )

pub local_process-settle :
    (p : Phase) (s : Store) (d : Dispatch)
    → local_process p d s ≡ settle p d.model (local_outcome p d) s
unfolding local_process settle process local_outcome deliver
local_process-settle p s d = ground arith
