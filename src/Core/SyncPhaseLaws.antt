-- ===== src/Core/SyncPhaseLaws.antt =====
-- wacecore.go, callPlugins: from the models of a request to what its sync calls leave.
use mod_sec_intl_wace_lib.Base.{
  All, Bool, Bool-cases, List, String, [], ap, arith, false, get_elem?, get_elem?-lt, get_elem?-set,
  get_elem?-snoc, inl, inr, length, map, negsuc, pos, refl, some, subst, suc, true, zero, ℕ, ◌<◌,
  ◌↔◌, ◌∙◌, ◌∷◌, ◌≡◌, ◌≤◌,
}
use mod_sec_intl_wace_lib.WaceApi.{Bytes, HttpPayload}
use mod_sec_intl_wace_lib.ConfigStore.PluginType.{ModelPluginType}
use mod_sec_intl_wace_lib.PluginManager.Tx.{
  Channels, ModelStatus, Store, SyncTx, add_sync_channel, channel_at, in_range, load_sync_tx,
  make_chan, no_channels, set_channel,
}
use mod_sec_intl_wace_lib.PluginManager.CheckResult.{tx_results}
use mod_sec_intl_wace_lib.Core.Dispatch.{Dispatch, Launch, Route, accepts, launch}
use mod_sec_intl_wace_lib.Core.DispatchLaws.{accepted, is_sync_route}
use mod_sec_intl_wace_lib.Core.LaunchLaws.{call_of, count_calls, launch_lem}
use mod_sec_intl_wace_lib.Core.Wait.{arrived, sync_wait, wait_loop}
use mod_sec_intl_wace_lib.Core.WaitLaws.{expires, taken, wait_loop-ended_iff}
use mod_sec_intl_wace_lib.Core.Phase.{Phase, end_calls, open_channel}
use mod_sec_intl_wace_lib.Core.Outcomes.{outcome, results_after, statuses}
use mod_sec_intl_wace_lib.Core.SettleLaws.{KeepsId, Waits}
use mod_sec_intl_wace_lib.Core.RemoteLaws.{IsDue}
use mod_sec_intl_wace_lib.Core.PhaseLaws.{IsLeft, end_calls-IsLeft}
use mathlib.Core.List.{Permᴰ}

pub All-Permᴰ {ℓ κ} :
    {A : Type ℓ} (P : A → Type κ) (xs ys : List A) → Permᴰ xs ys → All P xs → All P ys
All-Permᴰ P xs ys Permᴰ.nil h = h
All-Permᴰ P xs ys (Permᴰ.cons {l₁ = us} {l₂ = vs} e d) (h, hs) =
    (subst P e h, All-Permᴰ P us vs d hs)
All-Permᴰ P xs ys (Permᴰ.swap e e') (h, (h', hs)) = (subst P e' h', (subst P e h, hs))
All-Permᴰ P xs ys (Permᴰ.trans {l₂ = zs} d d') h = All-Permᴰ P zs ys d' (All-Permᴰ P xs zs d h)

count_calls-Permᴰ :
    (f : Route → Bool) (xs ys : List Dispatch) → Permᴰ xs ys → count_calls f xs ≡ count_calls f ys
unfolding count_calls
count_calls-Permᴰ f xs ys Permᴰ.nil = refl
count_calls-Permᴰ f xs ys (Permᴰ.cons {l₁ = us} {l₂ = vs} e d) =
    rw (e, count_calls-Permᴰ f us vs d) refl
count_calls-Permᴰ f xs ys (Permᴰ.swap {a = a} {b = b} e e') = rw⁻¹ (e, e') (ground arith)
count_calls-Permᴰ f xs ys (Permᴰ.trans {l₂ = zs} d d') =
    count_calls-Permᴰ f xs zs d ∙ count_calls-Permᴰ f zs ys d'

-- Only a call of a sync route reports.
length-statuses :
    (p : Phase) (ds : List Dispatch) → length (statuses p ds) ≤ count_calls is_sync_route ds
unfolding statuses outcome count_calls
length-statuses p [] = omega arith
length-statuses p (d ∷ ds) = ground (arith, length-statuses p ds)

call_of-IsDue :
    (equal_fold : Bytes → Bytes → Bool) (p : Phase) (input : HttpPayload) (models : List String)
    → All (IsDue p) (map (call_of equal_fold p.conf input) (accepted p.conf p.kind models))
unfolding accepted call_of
call_of-IsDue equal_fold p input [] = tt
call_of-IsDue equal_fold p input (id ∷ models) =
    let rest = call_of-IsDue equal_fold p input models in
    elim (Bool-cases (accepts p.conf p.kind id)) [
      | inl taken ↦ rw (taken, accepted) ((taken, refl), rest)
      | inr skipped ↦ rw (skipped, accepted) rest
    ]

channel_at-set_channel :
    (cs : Channels) (t : ModelPluginType) (c : ℕ)
    → length cs ≡ length no_channels
    → in_range t ≡ true
    → channel_at (set_channel cs t (some c)) t ≡ some c
unfolding channel_at set_channel in_range
channel_at-set_channel cs (pos n) c size range =
    let at = get_elem?-set cs n n (some c) (ground (arith, range, size)) in ground (arith, at)
channel_at-set_channel cs (negsuc n) c size range = ground (arith, range)

expires-arrived : (sts : List ModelStatus) → expires (map arrived sts) ≡ false
unfolding expires
expires-arrived [] = refl
expires-arrived (st ∷ sts) = expires-arrived sts

length-arrived : (sts : List ModelStatus) → length (map arrived sts) ≡ length sts
length-arrived [] = refl
length-arrived (st ∷ sts) = ap suc (length-arrived sts)

module _ (p : Phase) (s : Store) (a : ℕ) (tx : SyncTx) (open' : load_sync_tx s p.tx_id ≡ some a)
    (at : get_elem? s.sync_heap a ≡ some tx) (size : length tx.channels ≡ length no_channels)
    (range : in_range p.kind ≡ true) (chan : p.chan ≡ length s.chans) where
  -- The new channel is that of the transaction for the type, and empty.
  open_channel-Waits :
      (n : ℕ)
      → Waits p
          (open_channel s p.tx_id p.kind (suc n))
          a
          tx.results
          (record { capacity = suc n; buffer = [] })
  unfolding open_channel make_chan add_sync_channel load_sync_tx
  open_channel-Waits n =
      let tx' : SyncTx = record tx { channels = set_channel tx.channels p.kind (some p.chan) } in
      rw (range, open_channel)
        (rw (open', at)
          (rw⁻¹ chan (record {
            opened = open';
            holds = (
              tx',
              ground (arith, get_elem?-set s.sync_heap a a tx' (get_elem?-lt s.sync_heap a tx at)),
              refl,
              channel_at-set_channel tx.channels p.kind p.chan size range,
            );
            channel = ground (
              arith,
              chan,
              get_elem?-snoc s.chans p.chan (record { capacity = suc n; buffer = [] }),
            );
          })))

  -- What the calls leave, from the channel on that is made for them.
  calls-IsLeft :
      (keeps : KeepsId p) (ds : List Dispatch) (n : ℕ)
      → 0 < n
      → All (IsDue p) ds
      → length (statuses p ds) ≤ n
      → IsLeft p keeps a ds tx.results
          (record { capacity = n; buffer = [] })
          (end_calls p ds (open_channel s p.tx_id p.kind n))
  calls-IsLeft keeps ds zero some_call due room = absurd (omega (arith, some_call))
  calls-IsLeft keeps ds (suc n) some_call due room =
      end_calls-IsLeft p keeps a ds (open_channel s p.tx_id p.kind (suc n)) tx.results
        (record { capacity = suc n; buffer = [] }) (open_channel-Waits n) due (omega (arith, room))

  -- The calls that callPlugins makes, in any order.
  module _ (equal_fold : Bytes → Bytes → Bool) (input : HttpPayload) (models : List String)
      (l : Launch) (launched : launch equal_fold p.conf input models p.kind ≡ some l)
      (ds : List Dispatch) (order : Permᴰ l.calls ds) where
    pub launched-calls :
        (l.calls ≡ map (call_of equal_fold p.conf input) (accepted p.conf p.kind models))
        × (l.sync_counter ≡ count_calls is_sync_route l.calls)
    launched-calls =
        let (l', launched', calls, sync, async) =
          launch_lem equal_fold p.conf input models p.kind in
        let same : l' ≡ l = cc in
        subst
          (λ x.
            (x.calls ≡ map (call_of equal_fold p.conf input) (accepted p.conf p.kind models))
            × (x.sync_counter ≡ count_calls is_sync_route x.calls))
          same (calls, sync)

    launched-IsDue : All (IsDue p) ds
    launched-IsDue =
        All-Permᴰ (IsDue p) l.calls ds order
          (rw launched-calls.0 (call_of-IsDue equal_fold p input models))

    launched-room : length (statuses p ds) ≤ l.sync_counter
    launched-room = omega (
      arith,
      launched-calls.1,
      length-statuses p ds,
      count_calls-Permᴰ is_sync_route l.calls ds order,
    )

    -- In whatever order the calls end that callPlugins makes for an open transaction, no send on
    -- the sync channel blocks and no status is dropped. Behind them the results of the transaction
    -- are those of the calls that have succeeded, by their model, the channel holds one status for
    -- each call that reports, in the order of their ends, and the waiting loop ends on these
    -- statuses exactly when every sync call has reported. There is a sync call, the type is in
    -- range, the channel is new, and the identifier of the transaction survives JSON. A call over
    -- the queue reports when its input cannot be sent or a report on it is read, and has succeeded
    -- when the error text that is read is empty.
    pub sync_phase_lem :
        KeepsId p
        → 0 < l.sync_counter
        → (s' : Store) × (end_calls p ds (open_channel s p.tx_id p.kind l.sync_counter) ≡ some s')
          × (tx_results s' a ≡ results_after p ds tx.results)
          × (get_elem? s'.chans p.chan
              ≡ some (record { capacity = l.sync_counter; buffer = statuses p ds }))
          × (((wait_loop sync_wait l.sync_counter (map arrived (statuses p ds))).ended ≡ true)
              ↔ (length (statuses p ds) ≡ l.sync_counter))
    unfolding tx_results
    sync_phase_lem keeps some_call =
        let (s', ended, w) =
          calls-IsLeft keeps ds l.sync_counter some_call launched-IsDue launched-room in
        let (tx', there, results, channel) = w.holds in
        let waited = wait_loop-ended_iff sync_wait l.sync_counter (map arrived (statuses p ds)) in
        (
          s',
          ended,
          rw (there, tx_results) results,
          w.channel,
          ground (
            arith,
            waited,
            launched-room,
            expires-arrived (statuses p ds),
            length-arrived (statuses p ds),
          ),
        )
