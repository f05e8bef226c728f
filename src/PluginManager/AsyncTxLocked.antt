-- ===== src/PluginManager/AsyncTxLocked.antt =====
-- pluginmanager/pluginmanager.go, the invariant of an asyncTx over the steps under its mutex.
use mod_sec_intl_wace_lib.Base.{
  =ₛ_iff, Bool-cases, Map, String, arith, erase, false, get_elem?, get_elem?-lt, get_elem?-set,
  get_elem?-some, if◌then◌else◌, inl, inr, length-set, lookup, lookup-erase, not, refl, set, some,
  true, ℕ, ◌&&◌, ◌==◌, ◌≡◌,
}
use mod_sec_intl_wace_lib.ConfigStore.PluginType.{ModelPluginType}
use mod_sec_intl_wace_lib.PluginManager.Tx.{AsyncState, AsyncTx, in_range}
use mod_sec_intl_wace_lib.PluginManager.AsyncTx.{
  add_channel, add_locked, compare_and_delete, drop_channel, remove_locked,
}
use mod_sec_intl_wace_lib.PluginManager.AsyncTxLaws.{
  Holds, StateInv, TxInv, add_channel-TxInv, drop_channel-TxInv, drop_channel-removed,
}

-- A write to the heap that neither removes an asyncTx nor brings one back.
module _ (s : AsyncState) (a : ℕ) (tx tx' : AsyncTx) (at : get_elem? s.heap a ≡ some tx) where
  abbrev written : AsyncState
  written = record s { heap = set s.heap a tx' }

  read_written :
      (b : ℕ) → get_elem? written.heap b ≡ (if a == b then some tx' else get_elem? s.heap b)
  read_written b = get_elem?-set s.heap a b tx' (get_elem?-lt s.heap a tx at)

  written-Holds : (j : String) (b : ℕ) → tx'.removed ≡ tx.removed → Holds s j b → Holds written j b
  written-Holds j b same h = record {
    allocated = omega (arith, h.allocated, length-set {0} s.heap a tx');
    found = λ ty f on. ground (arith, read_written b, h.found tx, h.found ty);
  }

  written-StateInv : tx'.removed ≡ tx.removed → TxInv tx' → StateInv s → StateInv written
  written-StateInv same right' inv = record {
    bounded = λ j b f. omega (arith, inv.bounded j b f, length-set {0} s.heap a tx');
    live = λ j b ty f g. ground (arith, read_written b, inv.live j b tx, inv.live j b ty);
    injective = inv.injective;
    right = λ b ty f. ground (arith, read_written b, inv.right b ty);
  }

-- The removal of the asyncTx at `a`, which is in the map under `id`.
module _ (s : AsyncState) (id : String) (a : ℕ) (tx tx' : AsyncTx)
    (at : get_elem? s.heap a ≡ some tx) (mapped : lookup id s.txs ≡ some a)
    (gone : tx'.removed ≡ true) where
  abbrev deleted : AsyncState
  deleted = record { txs = erase id s.txs; heap = set s.heap a tx' }

  deleted-Holds : (j : String) (b : ℕ) → Holds s j b → Holds deleted j b
  deleted-Holds j b h = record {
    allocated = omega (arith, h.allocated, length-set {0} s.heap a tx');
    found = λ ty f on.
        ground
          (arith, read_written s a tx tx' at b, h.found ty, lookup-erase id j s.txs, =ₛ_iff id j);
  }

  deleted-StateInv : TxInv tx' → StateInv s → StateInv deleted
  deleted-StateInv right' inv = record {
    bounded = λ j b f.
        ground (arith, inv.bounded j b, length-set {0} s.heap a tx', lookup-erase id j s.txs);
    live = λ j b ty f g. ground (
      arith,
      read_written s a tx tx' at b,
      inv.live j b ty,
      inv.injective id j a,
      lookup-erase id j s.txs,
      =ₛ_iff id j,
    );
    injective = λ j k b f g.
        ground (arith, inv.injective j k b, lookup-erase id j s.txs, lookup-erase id k s.txs);
    right = λ b ty f. ground (arith, read_written s a tx tx' at b, inv.right b ty);
  }

pub add_channel-removed :
    (tx : AsyncTx) (t : ModelPluginType) (c : ℕ) → (add_channel tx t c).removed ≡ tx.removed
unfolding add_channel
add_channel-removed tx t c = refl

-- A round of AddModelChannel that succeeds has met an asyncTx that is not removed.
pub add_locked_inv :
    (s s' : AsyncState) (a : ℕ) (t : ModelPluginType) (c : ℕ)
    → add_locked s a t c ≡ some s'
    → (tx : AsyncTx) × (get_elem? s.heap a ≡ some tx)
      × (tx.removed ≡ false)
      × (s' ≡ record s { heap = set s.heap a (add_channel tx t c) })
unfolding add_locked
add_locked_inv s s' a t c h = ground arith

-- The invariant of a state, kept under a step, with what any call holds on to.
abbrev pub Keeps : AsyncState → AsyncState → Type 0
Keeps s s' = StateInv s' × ((j : String) (b : ℕ) → Holds s j b → Holds s' j b)

pub add_locked-Keeps :
    (s s' : AsyncState) (a : ℕ) (t : ModelPluginType) (c : ℕ)
    → StateInv s
    → in_range t ≡ true
    → add_locked s a t c ≡ some s'
    → Keeps s s'
add_locked-Keeps s s' a t c inv r h =
    let (tx, at, on, e) = add_locked_inv s s' a t c h in
    let same = add_channel-removed tx t c in
    rw e (
      written-StateInv s a tx (add_channel tx t c) at same
          (add_channel-TxInv tx t c r (inv.right a tx at)) inv,
      λ j b hold. written-Holds s a tx (add_channel tx t c) at j b same hold,
    )

-- The two ways of RemoveAsyncModelChannel.
remove_locked-kept :
    (s : AsyncState) (id : String) (a : ℕ) (t : ModelPluginType) (tx : AsyncTx)
    → get_elem? s.heap a ≡ some tx
    → ((drop_channel tx t).count == 0 && not (drop_channel tx t).removed) ≡ false
    → remove_locked s id a t ≡ record s { heap = set s.heap a (drop_channel tx t) }
unfolding remove_locked
remove_locked-kept s id a t tx at h = rw (at, remove_locked) (rw h)

remove_locked-last :
    (s : AsyncState) (id : String) (a : ℕ) (t : ModelPluginType) (tx : AsyncTx)
    → get_elem? s.heap a ≡ some tx
    → ((drop_channel tx t).count == 0 && not (drop_channel tx t).removed) ≡ true
    → remove_locked s id a t ≡ record {
      txs = compare_and_delete s.txs id a;
      heap = set s.heap a (record (drop_channel tx t) { removed = true });
    }
unfolding remove_locked
remove_locked-last s id a t tx at h = rw (at, remove_locked) (rw h)

compare_and_delete-mapped :
    (txs : Map ℕ) (id : String) (a : ℕ)
    → lookup id txs ≡ some a
    → compare_and_delete txs id a ≡ erase id txs
unfolding compare_and_delete
compare_and_delete-mapped txs id a h = rw (h, compare_and_delete) (ground arith)

removed-TxInv : (tx : AsyncTx) → TxInv tx → TxInv (record tx { removed = true })
removed-TxInv tx h = record { counted = h.counted; sized = h.sized }

pub remove_locked-Keeps :
    (s : AsyncState) (id : String) (a : ℕ) (t : ModelPluginType)
    → StateInv s
    → Holds s id a
    → Keeps s (remove_locked s id a t)
remove_locked-Keeps s id a t inv h =
    let (tx, at) = get_elem?-some s.heap a h.allocated in
    let dropped = drop_channel tx t in
    let right = drop_channel-TxInv tx t (inv.right a tx at) in
    let same = drop_channel-removed tx t in
    elim (Bool-cases ((drop_channel tx t).count == 0 && not (drop_channel tx t).removed)) [
      | inr more ↦ rw (remove_locked-kept s id a t tx at more) (
        written-StateInv s a tx dropped at same right inv,
        λ j b hold. written-Holds s a tx dropped at j b same hold,
      )
      | inl last ↦
          let mapped : lookup id s.txs ≡ some a = h.found tx at (ground arith) in
          let tx' : AsyncTx = record dropped { removed = true } in
          rw (remove_locked-last s id a t tx at last, compare_and_delete-mapped s.txs id a mapped)
            (
              deleted-StateInv s id a tx tx' at mapped refl (removed-TxInv dropped right) inv,
              deleted-Holds s id a tx tx' at mapped refl,
            )
    ]
