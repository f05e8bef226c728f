-- ===== src/PluginManager/AsyncTx.antt =====
-- pluginmanager/pluginmanager.go, the asyncTx of a transaction under concurrent calls of
-- AddModelChannel and RemoveAsyncModelChannel. A call takes two atomic steps: it finds the asyncTx in
-- the sync.Map, and then works on it under its mutex. Other calls may run in between.
use mod_sec_intl_wace_lib.Base.{
  List, Map, Option, String, [], erase, false, get_elem?, if◌then◌else◌, insert, length, lookup,
  none, not, set, some, true, ℕ, ◌&&◌, ◌++◌, ◌+◌, ◌-◌, ◌==◌, ◌∷◌, ◌≡◌,
}
use mod_sec_intl_wace_lib.ConfigStore.PluginType.{ModelPluginType}
use mod_sec_intl_wace_lib.PluginManager.Tx.{
  AsyncState, AsyncTx, channel_at, in_range, no_channels, set_channel,
}

abbrev pub empty_tx : AsyncTx
empty_tx = record { channels = no_channels; count = 0; removed = false }

-- `LoadOrStore(transactionId, &asyncTx{})`: the address that is found or stored.
unfoldable pub load_or_store : AsyncState → String → AsyncState × ℕ
load_or_store s id = elim (lookup id s.txs) [
  | some a ↦ (s, a)
  | none ↦ (
    record s { txs = insert id (length s.heap) s.txs; heap = s.heap ++ (empty_tx ∷ []) },
    length s.heap,
  )
]

-- AddModelChannel under the mutex, when the asyncTx is not removed.
unfoldable pub add_channel : AsyncTx → ModelPluginType → ℕ → AsyncTx
unfolding channel_at set_channel
add_channel tx t c = record tx {
  count = elim (channel_at tx.channels t) [ none ↦ tx.count + 1 | some old ↦ tx.count ];
  channels = set_channel tx.channels t (some c);
}

-- One round of the loop of AddModelChannel from the lock on: the new state if the channel was added,
-- and `none` where the loop goes round again.
unfoldable pub add_locked : AsyncState → ℕ → ModelPluginType → ℕ → Option AsyncState
add_locked s a t c = elim (get_elem? s.heap a) [
  | none ↦ none
  | some tx ↦
      if tx.removed then none else some (record s { heap = set s.heap a (add_channel tx t c) })
]

-- RemoveAsyncModelChannel under the mutex, without the removal itself.
unfoldable pub drop_channel : AsyncTx → ModelPluginType → AsyncTx
unfolding in_range channel_at set_channel
drop_channel tx t =
    if in_range t
    then elim (channel_at tx.channels t) [
      | none ↦ tx
      | some c ↦ record tx { channels = set_channel tx.channels t none; count = tx.count - 1 }
    ]
    else tx

-- `CompareAndDelete(transactionId, tx)`
unfoldable pub compare_and_delete : Map ℕ → String → ℕ → Map ℕ
compare_and_delete txs id a = elim (lookup id txs) [
  | none ↦ txs
  | some b ↦ if b == a then erase id txs else txs
]

-- RemoveAsyncModelChannel from the lock on, for the asyncTx at `a`.
unfoldable pub remove_locked : AsyncState → String → ℕ → ModelPluginType → AsyncState
remove_locked s id a t = elim (get_elem? s.heap a) [
  | none ↦ s
  | some tx ↦
      if (drop_channel tx t).count == 0 && not (drop_channel tx t).removed
      then record {
        txs = compare_and_delete s.txs id a;
        heap = set s.heap a (record (drop_channel tx t) { removed = true });
      }
      else record s { heap = set s.heap a (drop_channel tx t) }
]

-- A call between its two steps: its transaction, and the address that it has found.
pub data Call : Type 0 where
  adding : String → ModelPluginType → ℕ → ℕ → Call
  removing : String → ModelPluginType → ℕ → Call

pub record System : Type 0 where
  pub state : AsyncState
  pub calls : List Call

-- The steps of any number of calls, in any order. A call whose lock finds the asyncTx removed goes
-- back to the map.
pub data Step (y : System) : System → Type 0 where
  begin_add :
      (id : String) (t : ModelPluginType) (c : ℕ)
      → in_range t ≡ true
      → Step y (record {
        state = (load_or_store y.state id).0;
        calls = adding id t c (load_or_store y.state id).1 ∷ y.calls;
      })
  begin_remove :
      (id : String) (t : ModelPluginType) (a : ℕ)
      → lookup id y.state.txs ≡ some a
      → Step y (record y { calls = removing id t a ∷ y.calls })
  finish_add :
      (front back : List Call) (id : String) (t : ModelPluginType) (c a : ℕ) (s : AsyncState)
      → y.calls ≡ front ++ (adding id t c a ∷ back)
      → add_locked y.state a t c ≡ some s
      → Step y (record { state = s; calls = front ++ back })
  retry_add :
      (front back : List Call) (id : String) (t : ModelPluginType) (c a : ℕ)
      → y.calls ≡ front ++ (adding id t c a ∷ back)
      → add_locked y.state a t c ≡ none
      → Step y (record {
        state = (load_or_store y.state id).0;
        calls = front ++ (adding id t c (load_or_store y.state id).1 ∷ back);
      })
  finish_remove :
      (front back : List Call) (id : String) (t : ModelPluginType) (a : ℕ)
      → y.calls ≡ front ++ (removing id t a ∷ back)
      → Step y (record { state = remove_locked y.state id a t; calls = front ++ back })

-- What is reached from `y`.
pub data Reach (y : System) : System → Type 0 where
  here : Reach y y
  next : {z w : System} → Reach y z → Step z w → Reach y w

-- No transaction and no call.
abbrev pub start : System
start = record { state = record { txs = []; heap = [] }; calls = [] }
