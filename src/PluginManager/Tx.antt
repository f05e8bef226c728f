-- ===== src/PluginManager/Tx.antt =====
-- pluginmanager/pluginmanager.go, the state of the transactions. What the code reaches by pointers
-- (syncTx, asyncTx and the channels) stands on a heap, and an address is its index there.
use mod_sec_intl_wace_lib.Base.{
  Bool, Error, List, Map, Option, String, [], erase, get_elem?, if◌then◌else◌, insert, leb_int,
  length, lookup, ltb, ltb_int, negsuc, none, pos, set, some, ℕ, ℤ, ◌&&◌, ◌++◌, ◌∷◌,
}
use mod_sec_intl_wace_lib.WaceApi.{ModelResults}
use mod_sec_intl_wace_lib.ConfigStore.PluginType.{ModelPluginType}
use mod_sec_intl_wace_lib.ConfigStore.Defs.{Float64}

-- `ModelStatus`; `error` is `Err`.
pub record ModelStatus : Type 0 where
  pub model_id : String
  pub prob_attack : Float64
  pub error : Option Error

-- A buffered channel: its capacity and what it holds, the oldest first.
pub record Chan : Type 0 where
  pub capacity : ℕ
  pub buffer : List ModelStatus

-- `numPluginTypes`
abbrev pub num_plugin_types : ℤ
num_plugin_types = pos 7

-- One channel for each plugin type; `none` is a nil channel.
abbrev pub Channels : Type 0
Channels = List (Option ℕ)

abbrev pub no_channels : Channels
no_channels = none ∷ none ∷ none ∷ none ∷ none ∷ none ∷ none ∷ []

pub record SyncTx : Type 0 where
  pub results : Map ModelResults
  pub channels : Channels

pub record AsyncTx : Type 0 where
  pub channels : Channels
  pub count : ℕ
  pub removed : Bool

-- `asyncTxs` and the asyncTx behind it.
pub record AsyncState : Type 0 where
  pub txs : Map ℕ
  pub heap : List AsyncTx

-- `syncTxs` with the heap behind it, the same of the async ones, and the channels.
pub record Store : Type 0 where
  pub sync_txs : Map ℕ
  pub sync_heap : List SyncTx
  pub async : AsyncState
  pub chans : List Chan

-- The tests `t < 0 || t >= numPluginTypes` and their contrary.
unfoldable pub in_range : ModelPluginType → Bool
unfolding leb_int ltb_int
in_range t = leb_int (pos 0) t && ltb_int t num_plugin_types

-- `channels[t]`. Only types that are in range are used; the others would panic.
unfoldable pub channel_at : Channels → ModelPluginType → Option ℕ
channel_at cs (pos n) = elim (get_elem? cs n) [ none ↦ none | some c ↦ c ]
channel_at cs (negsuc n) = none

-- `channels[t] = c`
unfoldable pub set_channel : Channels → ModelPluginType → Option ℕ → Channels
set_channel cs (pos n) c = set cs n c
set_channel cs (negsuc n) c = cs

-- `loadSyncTx`: the address.
unfoldable pub load_sync_tx : Store → String → Option ℕ
load_sync_tx s id = lookup id s.sync_txs

-- `loadAsyncTx`
unfoldable pub load_async_tx : Store → String → Option ℕ
load_async_tx s id = lookup id s.async.txs

-- `storeResult`
unfoldable pub store_result : Store → ℕ → String → ModelResults → Store
store_result s a model res = elim (get_elem? s.sync_heap a) [
  | none ↦ s
  | some tx ↦ record s {
    sync_heap = set s.sync_heap a (record tx { results = insert model res tx.results });
  }
]

-- The method `channel` of a syncTx and of an asyncTx.
unfoldable pub sync_channel : Store → ℕ → ModelPluginType → Option ℕ
sync_channel s a t = elim (get_elem? s.sync_heap a) [
  | none ↦ none
  | some tx ↦ channel_at tx.channels t
]

unfoldable pub async_channel : Store → ℕ → ModelPluginType → Option ℕ
async_channel s a t = elim (get_elem? s.async.heap a) [
  | none ↦ none
  | some tx ↦ channel_at tx.channels t
]

-- `InitTransaction`: a new syncTx, also where the identifier is in use.
unfoldable pub init_transaction : Store → String → Store
init_transaction s id = record s {
  sync_txs = insert id (length s.sync_heap) s.sync_txs;
  sync_heap = s.sync_heap ++ ((record { results = []; channels = no_channels }) ∷ []);
}

-- `CloseTransaction`; that it is missing is only logged.
unfoldable pub close_transaction : Store → String → Store
close_transaction s id = record s { sync_txs = erase id s.sync_txs }

-- `AddModelChannel` with "sync": a type out of range and a missing transaction are only logged.
unfoldable pub add_sync_channel : Store → String → ModelPluginType → ℕ → Store
unfolding in_range load_sync_tx set_channel
add_sync_channel s id t c =
    if in_range t
    then elim (load_sync_tx s id) [
      | none ↦ s
      | some a ↦ elim (get_elem? s.sync_heap a) [
        | none ↦ s
        | some tx ↦ record s {
          sync_heap =
              set s.sync_heap a (record tx { channels = set_channel tx.channels t (some c) });
        }
      ]
    ]
    else s

-- `make(chan ModelStatus, n)`: the address of the new channel is the number of channels before.
unfoldable pub make_chan : Store → ℕ → Store × ℕ
make_chan s n =
    (record s { chans = s.chans ++ ((record { capacity = n; buffer = [] }) ∷ []) }, length s.chans)

-- `ch <- status` when there is room, and `none` where the sender blocks.
unfoldable pub send : Store → ℕ → ModelStatus → Option Store
send s c status = elim (get_elem? s.chans c) [
  | none ↦ none
  | some ch ↦
      if ltb (length ch.buffer) ch.capacity
      then some
          (record s { chans = set s.chans c (record ch { buffer = ch.buffer ++ (status ∷ []) }) })
      else none
]

-- `notifyStatus`: what finds no room is dropped.
unfoldable pub notify_status : Store → ℕ → ModelStatus → Store
unfolding send
notify_status s c status = elim (send s c status) [ none ↦ s | some s' ↦ s' ]
