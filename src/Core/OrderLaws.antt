-- ===== src/Core/OrderLaws.antt =====
-- wacecore.go, callPlugins: the order in which the sync calls of a transaction end.
use mod_sec_intl_wace_lib.Base.{
  All, Bool, List, Option-cases, String, [], ap, arith, get_elem?, inl, inr, length, lookup, map,
  none, refl, some, sym, true, ℕ, ◌+◌, ◌<◌, ◌∙◌, ◌∷◌, ◌≡◌,
}
use mod_sec_intl_wace_lib.WaceApi.{Bytes, HttpPayload}
use mod_sec_intl_wace_lib.ConfigStore.Defs.{ConfigStore}
use mod_sec_intl_wace_lib.PluginManager.Tx.{Store, SyncTx, in_range, load_sync_tx, no_channels}
use mod_sec_intl_wace_lib.PluginManager.CheckResult.{tx_results}
use mod_sec_intl_wace_lib.Core.Dispatch.{Dispatch, Launch, launch}
use mod_sec_intl_wace_lib.Core.DispatchLaws.{accepted}
use mod_sec_intl_wace_lib.Core.LaunchLaws.{call_of}
use mod_sec_intl_wace_lib.Core.Phase.{Phase, end_calls, open_channel}
use mod_sec_intl_wace_lib.Core.Outcomes.{outcome, results_after, statuses}
use mod_sec_intl_wace_lib.Core.SettleLaws.{KeepsId}
use mod_sec_intl_wace_lib.Core.SyncPhaseLaws.{launched-calls, sync_phase_lem}
use mod_sec_intl_wace_lib.Core.SwapLaws.{IsCallOf, ReadAlike, results_after-Permᴰ}
use mathlib.Core.List.{Permᴰ}

length-statuses-outcome :
    (p : Phase) (d : Dispatch) (ds : List Dispatch)
    → length (statuses p (d ∷ ds))
      ≡ (elim (outcome p d) [ none ↦ 0 | some r ↦ 1 ]) + length (statuses p ds)
unfolding statuses
length-statuses-outcome p d ds = elim (Option-cases (outcome p d)) [
  | inl silent ↦ ground (arith, silent)
  | inr (r, o) ↦ ground (arith, o)
]

length-statuses-Permᴰ :
    (p : Phase) (ds es : List Dispatch)
    → Permᴰ ds es
    → length (statuses p ds) ≡ length (statuses p es)
length-statuses-Permᴰ p ds es Permᴰ.nil = refl
length-statuses-Permᴰ p ds es (Permᴰ.cons {a = a} {b = b} {l₁ = us} {l₂ = vs} e d) = rw⁻¹ e (
    omega (
      arith,
      length-statuses-outcome p a us,
      length-statuses-outcome p a vs,
      length-statuses-Permᴰ p us vs d,
    ))
length-statuses-Permᴰ p ds es (Permᴰ.swap {a = a} {b = b} {l = us} e e') =
    rw⁻¹ (e, e')
      (omega (
        arith,
        length-statuses-outcome p a (b ∷ us),
        length-statuses-outcome p b us,
        length-statuses-outcome p b (a ∷ us),
        length-statuses-outcome p a us,
      ))
length-statuses-Permᴰ p ds es (Permᴰ.trans {l₂ = us} d d') =
    length-statuses-Permᴰ p ds us d ∙ length-statuses-Permᴰ p us es d'

call_of-IsCallOf :
    (equal_fold : Bytes → Bytes → Bool) (conf : ConfigStore) (input : HttpPayload)
    (models : List String)
    → All (IsCallOf (call_of equal_fold conf input)) (map (call_of equal_fold conf input) models)
unfolding call_of
call_of-IsCallOf equal_fold conf input [] = tt
call_of-IsCallOf equal_fold conf input (id ∷ models) =
    (refl, call_of-IsCallOf equal_fold conf input models)

module _ (p : Phase) (s : Store) (a : ℕ) (tx : SyncTx) (open' : load_sync_tx s p.tx_id ≡ some a)
    (at : get_elem? s.sync_heap a ≡ some tx) (size : length tx.channels ≡ length no_channels)
    (range : in_range p.kind ≡ true) (chan : p.chan ≡ length s.chans)
    (equal_fold : Bytes → Bytes → Bool) (input : HttpPayload) (models : List String) (l : Launch)
    (launched : launch equal_fold p.conf input models p.kind ≡ some l) where
  launched-ReadAlike :
      (ds : List Dispatch)
      → Permᴰ l.calls ds
      → ReadAlike (results_after p l.calls tx.results) (results_after p ds tx.results)
  launched-ReadAlike ds order =
      let f = call_of equal_fold p.conf input in
      let calls =
        (launched-calls p s a tx open' at size range chan equal_fold input models l launched ds
          order).0 in
      results_after-Permᴰ p f l.calls ds tx.results order
        (rw calls (call_of-IsCallOf equal_fold p.conf input (accepted p.conf p.kind models)))

  -- The order in which the calls end makes no difference to the results on which a verdict is made:
  -- after any two orders of the calls that callPlugins makes, the same result is read for each
  -- model, and as many statuses have come, so the waiting loop ends after both or after neither.
  -- The transaction is open, there is a sync call, the type is in range, the channel is new,
  -- plugins, JSON and NATS answer the same to the same call, and the identifier of the transaction
  -- survives JSON.
  pub end_calls-ReadAlike :
      (ds es : List Dispatch)
      → Permᴰ l.calls ds
      → Permᴰ l.calls es
      → KeepsId p
      → 0 < l.sync_counter
      → let start = open_channel s p.tx_id p.kind l.sync_counter in
        (s1 : Store) × (s2 : Store) × (end_calls p ds start ≡ some s1)
        × (end_calls p es start ≡ some s2)
        × ReadAlike (tx_results s1 a) (tx_results s2 a)
        × (length (statuses p ds) ≡ length (statuses p es))
  end_calls-ReadAlike ds es order order' keeps some_call =
      let (s1, ended1, same1, _, _) =
        sync_phase_lem p s a tx open' at size range chan equal_fold input models l launched ds order
          keeps some_call in
      let (s2, ended2, same2, _, _) =
        sync_phase_lem p s a tx open' at size range chan equal_fold input models l launched es
          order' keeps some_call in
      (
        s1,
        s2,
        ended1,
        ended2,
        λ id.
            ap (lookup id) same1
            ∙ sym (launched-ReadAlike ds order id)
            ∙ launched-ReadAlike es order' id
            ∙ ap (lookup id) (sym same2),
        sym (length-statuses-Permᴰ p l.calls ds order) ∙ length-statuses-Permᴰ p l.calls es order',
      )
