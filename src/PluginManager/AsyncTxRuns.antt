-- ===== src/PluginManager/AsyncTxRuns.antt =====
-- pluginmanager/pluginmanager.go, the interleavings of AddModelChannel and RemoveAsyncModelChannel.
use mod_sec_intl_wace_lib.Base.{
  =ₛ_iff, All, List, Option-cases, String, [], arith, false, get_elem?, get_elem?-set,
  get_elem?-some, inl, inr, length, lookup, lookup-insert, negsuc, pos, refl, set, some, subst,
  true, ℕ, ◌++◌, ◌∙◌, ◌∷◌, ◌≡◌,
}
use mod_sec_intl_wace_lib.ConfigStore.PluginType.{ModelPluginType}
use mod_sec_intl_wace_lib.PluginManager.Tx.{
  AsyncState, AsyncTx, Channels, channel_at, in_range, set_channel,
}
use mod_sec_intl_wace_lib.PluginManager.AsyncTx.{
  Call, Reach, Step, System, add_channel, add_locked, adding, begin_add, begin_remove, finish_add,
  finish_remove, here, load_or_store, next, remove_locked, removing, retry_add, start,
}
use mod_sec_intl_wace_lib.PluginManager.AsyncTxLaws.{
  CallInv, Holds, StateInv, TxInv, load_or_store-Holds, load_or_store-Holds_self,
  load_or_store-StateInv, load_or_store-fresh, load_or_store-known,
}
use mod_sec_intl_wace_lib.PluginManager.AsyncTxLocked.{
  Keeps, add_channel-removed, add_locked-Keeps, add_locked_inv, remove_locked-Keeps,
}

-- The invariant of the whole system.
pub record SystemInv (y : System) : Type 0 where
  pub state_inv : StateInv y.state
  pub calls_inv : All (CallInv y.state) y.calls

CallInv-Keeps : (s s' : AsyncState) → Keeps s s' → (c : Call) → CallInv s c → CallInv s' c
CallInv-Keeps s s' k (adding id t c a) (h, r) = (k.1 id a h, r)
CallInv-Keeps s s' k (removing id t a) h = k.1 id a h

calls-Keeps :
    (s s' : AsyncState) → Keeps s s' → (cs : List Call) → All (CallInv s) cs → All (CallInv s') cs
calls-Keeps s s' k [] h = tt
calls-Keeps s s' k (c ∷ cs) (h, hs) = (CallInv-Keeps s s' k c h, calls-Keeps s s' k cs hs)

load_or_store-Keeps : (s : AsyncState) (id : String) → StateInv s → Keeps s (load_or_store s id).0
load_or_store-Keeps s id inv =
    (load_or_store-StateInv s id inv, λ j b h. load_or_store-Holds s id inv j b h)

-- The call in the middle of a list, and the list without it.
All-middle :
    (s : AsyncState) (front back : List Call) (c : Call)
    → All (CallInv s) (front ++ (c ∷ back))
    → CallInv s c × All (CallInv s) (front ++ back)
All-middle s [] back c h = h
All-middle s (d ∷ front) back c (h, hs) =
    let (this, rest) = All-middle s front back c hs in (this, (h, rest))

All-insert :
    (s : AsyncState) (front back : List Call) (c : Call)
    → CallInv s c
    → All (CallInv s) (front ++ back)
    → All (CallInv s) (front ++ (c ∷ back))
All-insert s [] back c h hs = (h, hs)
All-insert s (d ∷ front) back c h (h', hs) = (h', All-insert s front back c h hs)

begin_remove-Holds :
    (s : AsyncState) (id : String) (a : ℕ) → StateInv s → lookup id s.txs ≡ some a → Holds s id a
begin_remove-Holds s id a inv e = record { allocated = inv.bounded id a e; found = λ tx at on. e }

Step-SystemInv : {y z : System} → Step y z → SystemInv y → SystemInv z
Step-SystemInv {y} (begin_add id t c r) h =
    let inv = h.state_inv in
    let keeps = load_or_store-Keeps y.state id inv in
    record {
      state_inv = keeps.0;
      calls_inv = (
        (load_or_store-Holds_self y.state id inv, r),
        calls-Keeps y.state (load_or_store y.state id).0 keeps y.calls h.calls_inv,
      );
    }
Step-SystemInv {y} (begin_remove id t a e) h = record {
  state_inv = h.state_inv;
  calls_inv = (begin_remove-Holds y.state id a h.state_inv e, h.calls_inv);
}
Step-SystemInv {y} (finish_add front back id t c a s e done) h =
    let (call, rest) =
      All-middle y.state front back (adding id t c a)
        (subst (λ l. All (CallInv y.state) l) e h.calls_inv) in
    let keeps = add_locked-Keeps y.state s a t c h.state_inv call.1 done in
    record { state_inv = keeps.0; calls_inv = calls-Keeps y.state s keeps (front ++ back) rest }
Step-SystemInv {y} (retry_add front back id t c a e again) h =
    let (call, rest) =
      All-middle y.state front back (adding id t c a)
        (subst (λ l. All (CallInv y.state) l) e h.calls_inv) in
    let s' = (load_or_store y.state id).0 in
    let keeps = load_or_store-Keeps y.state id h.state_inv in
    record {
      state_inv = keeps.0;
      calls_inv =
          All-insert s' front back (adding id t c (load_or_store y.state id).1)
            (load_or_store-Holds_self y.state id h.state_inv, call.1)
            (calls-Keeps y.state s' keeps (front ++ back) rest);
    }
Step-SystemInv {y} (finish_remove front back id t a e) h =
    let (call, rest) =
      All-middle y.state front back (removing id t a)
        (subst (λ l. All (CallInv y.state) l) e h.calls_inv) in
    let keeps = remove_locked-Keeps y.state id a t h.state_inv call in
    record {
      state_inv = keeps.0;
      calls_inv = calls-Keeps y.state (remove_locked y.state id a t) keeps (front ++ back) rest;
    }

start-SystemInv : SystemInv start
unfolding lookup
start-SystemInv = record {
  state_inv = record {
    bounded = λ id a f. cc;
    live = λ id a tx f g. cc;
    injective = λ id j a f g. cc;
    right = λ a tx f. cc;
  };
  calls_inv = tt;
}

-- In every state that any interleaving of calls reaches, each asyncTx of the map is one that is not
-- removed and belongs to one transaction, each asyncTx counts exactly its channels, and a call that
-- has found an asyncTx which is not removed since then can rely on its being in the map.
pub Reach-SystemInv : {y : System} → Reach start y → SystemInv y
Reach-SystemInv here = start-SystemInv
Reach-SystemInv (next r st) = Step-SystemInv st (Reach-SystemInv r)

set_channel-read :
    (cs : Channels) (t : ModelPluginType) (c : ℕ)
    → length cs ≡ 7
    → in_range t ≡ true
    → channel_at (set_channel cs t (some c)) t ≡ some c
unfolding channel_at set_channel in_range
set_channel-read cs (pos n) c sized r = ground (arith, get_elem?-set cs n n (some c))
set_channel-read cs (negsuc n) c sized r = absurd (ground arith)

add_channel-read :
    (tx : AsyncTx) (t : ModelPluginType) (c : ℕ)
    → TxInv tx
    → in_range t ≡ true
    → channel_at (add_channel tx t c).channels t ≡ some c
unfolding add_channel
add_channel-read tx t c h r = set_channel-read tx.channels t c h.sized r

-- In a state that any interleaving reaches, a call of AddModelChannel whose locked part succeeds
-- has added its channel where it is found: the asyncTx is in the map under the transaction, holds
-- the channel for its type, and is not removed.
pub add_locked-found :
    {y : System} (front back : List Call) (id : String) (t : ModelPluginType) (c a : ℕ)
    (s : AsyncState)
    → Reach start y
    → y.calls ≡ front ++ (adding id t c a ∷ back)
    → add_locked y.state a t c ≡ some s
    → (tx : AsyncTx) × (lookup id s.txs ≡ some a)
      × (get_elem? s.heap a ≡ some tx)
      × (channel_at tx.channels t ≡ some c)
      × (tx.removed ≡ false)
add_locked-found {y} front back id t c a s reach e done =
    let h = Reach-SystemInv reach in
    let (call, rest) =
      All-middle y.state front back (adding id t c a)
        (subst (λ l. All (CallInv y.state) l) e h.calls_inv) in
    let (tx, at, on, same) = add_locked_inv y.state s a t c done in
    let tx' = add_channel tx t c in
    rw same (
      tx',
      call.0.found tx at on,
      get_elem?-set y.state.heap a a tx' call.0.allocated ∙ ground arith,
      add_channel-read tx t c (h.state_inv.right a tx at) call.1,
      add_channel-removed tx t c ∙ on,
    )

lookup-load_or_store :
    (s : AsyncState) (id : String)
    → lookup id (load_or_store s id).0.txs ≡ some (load_or_store s id).1
lookup-load_or_store s id = elim (Option-cases (lookup id s.txs)) [
  | inl e ↦
      rw (load_or_store-fresh s id e)
        (ground (arith, lookup-insert id id (length s.heap) s.txs, =ₛ_iff id id))
  | inr (a, e) ↦ rw (load_or_store-known s id a e) e
]

add_locked-succeeds :
    (s : AsyncState) (a : ℕ) (t : ModelPluginType) (c : ℕ) (tx : AsyncTx)
    → get_elem? s.heap a ≡ some tx
    → tx.removed ≡ false
    → add_locked s a t c ≡ some (record s { heap = set s.heap a (add_channel tx t c) })
unfolding add_locked
add_locked-succeeds s a t c tx at on = rw (at, add_locked) (rw on)

-- In a state that any interleaving reaches, a round of AddModelChannel for a type in range that no
-- other call interrupts adds its channel where it is found: the asyncTx that it has loaded or
-- stored is in the map under the transaction, holds the channel for its type, and is not removed.
pub add_uncontended :
    {y : System} (id : String) (t : ModelPluginType) (c : ℕ)
    → Reach start y
    → in_range t ≡ true
    → let (s, a) = load_or_store y.state id in
      (s' : AsyncState) × (tx : AsyncTx) × (add_locked s a t c ≡ some s')
      × (lookup id s'.txs ≡ some a)
      × (get_elem? s'.heap a ≡ some tx)
      × (channel_at tx.channels t ≡ some c)
      × (tx.removed ≡ false)
add_uncontended {y} id t c reach ranged =
    let inv = (Reach-SystemInv reach).state_inv in
    let s = (load_or_store y.state id).0 in
    let a = (load_or_store y.state id).1 in
    let mapped = lookup-load_or_store y.state id in
    let inv' = load_or_store-StateInv y.state id inv in
    let (tx, at) = get_elem?-some s.heap a (inv'.bounded id a mapped) in
    let done = add_locked-succeeds s a t c tx at (inv'.live id a tx mapped at) in
    let (tx', entered, stored, chan, live) =
      add_locked-found [] y.calls id t c a _ (next reach (begin_add id t c ranged)) refl done in
    (_, tx', done, entered, stored, chan, live)
