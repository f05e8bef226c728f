-- ===== src/PluginManager/AsyncTxLaws.antt =====
-- pluginmanager/pluginmanager.go, the invariant of an asyncTx under concurrent calls.
use mod_sec_intl_wace_lib.Base.{
  =ₛ_iff, Bool-cases, Option, Option-cases, String, [], ap, arith, false, get_elem?, get_elem?-snoc,
  get_elem?-some, inl, inr, insert, length, length-append, length-set, lookup, lookup-insert,
  negsuc, none, pos, refl, set, some, subst, suc, sym, true, zero, ℕ, ◌++◌, ◌<◌, ◌∙◌, ◌∷◌, ◌≡◌,
}
use mod_sec_intl_wace_lib.ConfigStore.PluginType.{ModelPluginType}
use mod_sec_intl_wace_lib.PluginManager.Tx.{AsyncState, AsyncTx, Channels, in_range}
use mod_sec_intl_wace_lib.PluginManager.AsyncTx.{
  Call, add_channel, adding, drop_channel, empty_tx, load_or_store, removing,
}

-- The channels that are not nil.
unfoldable pub channel_count : Channels → ℕ
channel_count [] = 0
channel_count (none ∷ cs) = channel_count cs
channel_count (some c ∷ cs) = suc (channel_count cs)

-- One asyncTx: as many channels as it counts, and one place for each type.
pub record TxInv (tx : AsyncTx) : Type 0 where
  pub counted : tx.count ≡ channel_count tx.channels
  pub sized : length tx.channels ≡ 7

pub record StateInv (s : AsyncState) : Type 0 where
  pub bounded : (id : String) (a : ℕ) → lookup id s.txs ≡ some a → a < length s.heap
  pub live :
      (id : String) (a : ℕ) (tx : AsyncTx)
      → lookup id s.txs ≡ some a
      → get_elem? s.heap a ≡ some tx
      → tx.removed ≡ false
  pub injective :
      (id j : String) (a : ℕ) → lookup id s.txs ≡ some a → lookup j s.txs ≡ some a → id ≡ j
  pub right : (a : ℕ) (tx : AsyncTx) → get_elem? s.heap a ≡ some tx → TxInv tx

-- What a call holds on to is in the map, unless it has been removed.
pub record Holds (s : AsyncState) (id : String) (a : ℕ) : Type 0 where
  pub allocated : a < length s.heap
  pub found :
      (tx : AsyncTx) → get_elem? s.heap a ≡ some tx → tx.removed ≡ false → lookup id s.txs ≡ some a

abbrev pub CallInv : AsyncState → Call → Type 0
CallInv s (adding id t c a) = Holds s id a × (in_range t ≡ true)
CallInv s (removing id t a) = Holds s id a

channel_count-set-none :
    (cs : Channels) (n c : ℕ)
    → get_elem? cs n ≡ some none
    → channel_count (set cs n (some c)) ≡ suc (channel_count cs)
unfolding channel_count
channel_count-set-none [] n c h = cc
channel_count-set-none (none ∷ cs) zero c h = refl
channel_count-set-none (some d ∷ cs) zero c h = cc
channel_count-set-none (none ∷ cs) (suc n) c h = channel_count-set-none cs n c h
channel_count-set-none (some d ∷ cs) (suc n) c h = ap suc (channel_count-set-none cs n c h)

channel_count-set-some :
    (cs : Channels) (n c d : ℕ)
    → get_elem? cs n ≡ some (some d)
    → channel_count (set cs n (some c)) ≡ channel_count cs
unfolding channel_count
channel_count-set-some [] n c d h = cc
channel_count-set-some (none ∷ cs) zero c d h = cc
channel_count-set-some (some e ∷ cs) zero c d h = refl
channel_count-set-some (none ∷ cs) (suc n) c d h = channel_count-set-some cs n c d h
channel_count-set-some (some e ∷ cs) (suc n) c d h = ap suc (channel_count-set-some cs n c d h)

channel_count-drop :
    (cs : Channels) (n d : ℕ)
    → get_elem? cs n ≡ some (some d)
    → channel_count cs ≡ suc (channel_count (set cs n none))
unfolding channel_count
channel_count-drop [] n d h = cc
channel_count-drop (none ∷ cs) zero d h = cc
channel_count-drop (some e ∷ cs) zero d h = refl
channel_count-drop (none ∷ cs) (suc n) d h = channel_count-drop cs n d h
channel_count-drop (some e ∷ cs) (suc n) d h = ap suc (channel_count-drop cs n d h)

in_range-small : (t : ModelPluginType) → in_range t ≡ true → (n : ℕ) × (t ≡ pos n) × (n < 7)
unfolding in_range
in_range-small (pos n) h = (n, refl, ground arith)
in_range-small (negsuc n) h = absurd (ground arith)

-- A type in range has a place.
slot :
    (tx : AsyncTx) (n : ℕ) → n < 7 → TxInv tx → (o : Option ℕ) × (get_elem? tx.channels n ≡ some o)
slot tx n h inv = get_elem?-some tx.channels n (rw inv.sized h)

add_channel-at :
    (tx : AsyncTx) (n c : ℕ) (o : Option ℕ)
    → get_elem? tx.channels n ≡ some o
    → TxInv tx
    → TxInv (add_channel tx (pos n) c)
unfolding add_channel
add_channel-at tx n c none e inv = record {
  counted = ground (arith, channel_count-set-none tx.channels n c e);
  sized = length-set tx.channels n (some c) ∙ inv.sized;
}
add_channel-at tx n c (some d) e inv = record {
  counted = ground (arith, channel_count-set-some tx.channels n c d e);
  sized = length-set tx.channels n (some c) ∙ inv.sized;
}

pub add_channel-TxInv :
    (tx : AsyncTx) (t : ModelPluginType) (c : ℕ)
    → in_range t ≡ true
    → TxInv tx
    → TxInv (add_channel tx t c)
add_channel-TxInv tx t c r inv =
    let (n, e, small) = in_range-small t r in
    let (o, at) = slot tx n small inv in
    subst (λ k. TxInv (add_channel tx k c)) (sym e) (add_channel-at tx n c o at inv)

drop_channel-at :
    (tx : AsyncTx) (n : ℕ) (o : Option ℕ)
    → n < 7
    → get_elem? tx.channels n ≡ some o
    → TxInv tx
    → TxInv (drop_channel tx (pos n))
unfolding drop_channel
drop_channel-at tx n none h e inv = record { counted = ground arith; sized = ground arith }
drop_channel-at tx n (some d) h e inv = record {
  counted = ground (arith, channel_count-drop tx.channels n d e);
  sized = ground (arith, length-set tx.channels n none);
}

drop_channel-out :
    (tx : AsyncTx) (t : ModelPluginType) → in_range t ≡ false → drop_channel tx t ≡ tx
unfolding drop_channel
drop_channel-out tx t h = rw h

pub drop_channel-TxInv : (tx : AsyncTx) (t : ModelPluginType) → TxInv tx → TxInv (drop_channel tx t)
drop_channel-TxInv tx t inv = elim (Bool-cases (in_range t)) [
  | inl r ↦
      let (n, e, small) = in_range-small t r in
      let (o, at) = slot tx n small inv in
      subst (λ k. TxInv (drop_channel tx k)) (sym e) (drop_channel-at tx n o small at inv)
  | inr out ↦ rw (drop_channel-out tx t out) inv
]

pub drop_channel-removed :
    (tx : AsyncTx) (t : ModelPluginType) → (drop_channel tx t).removed ≡ tx.removed
unfolding drop_channel
drop_channel-removed tx t = ground arith

empty_tx-TxInv : TxInv empty_tx
unfolding channel_count
empty_tx-TxInv = record { counted = refl; sized = refl }

pub load_or_store-known :
    (s : AsyncState) (id : String) (a : ℕ) → lookup id s.txs ≡ some a → load_or_store s id ≡ (s, a)
unfolding load_or_store
load_or_store-known s id a e = rw (e, load_or_store)

pub load_or_store-fresh :
    (s : AsyncState) (id : String)
    → lookup id s.txs ≡ none
    → load_or_store s id ≡ (
      record s { txs = insert id (length s.heap) s.txs; heap = s.heap ++ (empty_tx ∷ []) },
      length s.heap,
    )
unfolding load_or_store
load_or_store-fresh s id e = rw (e, load_or_store)

-- `load_or_store` gives an address that is in the map, and keeps what is known.
module _ (s : AsyncState) (id : String) (inv : StateInv s) where
  pub load_or_store-Holds_self : Holds (load_or_store s id).0 id (load_or_store s id).1
  load_or_store-Holds_self = elim (Option-cases (lookup id s.txs)) [
    | inl e ↦ rw (load_or_store-fresh s id e) (record {
      allocated = omega (arith, length-append {0} s.heap (empty_tx ∷ []));
      found = λ tx at on. ground (arith, lookup-insert id id (length s.heap) s.txs, =ₛ_iff id id);
    })
    | inr (a, e) ↦
        rw (load_or_store-known s id a e)
          (record { allocated = inv.bounded id a e; found = λ tx at on. e })
  ]

  pub load_or_store-Holds : (j : String) (a : ℕ) → Holds s j a → Holds (load_or_store s id).0 j a
  load_or_store-Holds j a h = elim (Option-cases (lookup id s.txs)) [
    | inl e ↦ rw (load_or_store-fresh s id e) (record {
      allocated = omega (arith, h.allocated, length-append {0} s.heap (empty_tx ∷ []));
      found = λ tx at on. ground (
        arith,
        h.allocated,
        h.found tx,
        get_elem?-snoc s.heap a empty_tx,
        lookup-insert id j (length s.heap) s.txs,
        =ₛ_iff id j,
      );
    })
    | inr (b, e) ↦ rw (load_or_store-known s id b e) h
  ]

  pub load_or_store-StateInv : StateInv (load_or_store s id).0
  load_or_store-StateInv = elim (Option-cases (lookup id s.txs)) [
    | inl e ↦ rw (load_or_store-fresh s id e) (record {
      bounded = λ j a f. ground (
        arith,
        inv.bounded j a,
        length-append {0} s.heap (empty_tx ∷ []),
        lookup-insert id j (length s.heap) s.txs,
      );
      live = λ j a tx f at. ground (
        arith,
        inv.bounded j a,
        inv.live j a tx,
        get_elem?-snoc s.heap a empty_tx,
        lookup-insert id j (length s.heap) s.txs,
      );
      injective = λ j k a f g. ground (
        arith,
        inv.bounded j a,
        inv.bounded k a,
        inv.injective j k a,
        lookup-insert id j (length s.heap) s.txs,
        lookup-insert id k (length s.heap) s.txs,
        =ₛ_iff id j,
        =ₛ_iff id k,
      );
      right = λ a tx at.
          ground (arith, inv.right a tx, get_elem?-snoc s.heap a empty_tx, empty_tx-TxInv);
    })
    | inr (b, e) ↦ rw (load_or_store-known s id b e) inv
  ]
