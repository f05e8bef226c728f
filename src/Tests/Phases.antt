-- ===== src/Tests/Phases.antt =====
-- The calls of a transaction, of a model in this process and of one in another.
use mod_sec_intl_wace_lib.Base.{
  Bool, [], arith, codes, eqb_int, get_elem?, length, lookup, map, none, ok, pos, refl, some, true,
  ◌↔◌, ◌∷◌, ◌≡◌,
}
use mod_sec_intl_wace_lib.WaceApi.{Bytes}
use mod_sec_intl_wace_lib.ConfigStore.Defs.{is_async, is_in_training, is_remote, should_sanitize}
use mod_sec_intl_wace_lib.PluginManager.Tx.{Store, channel_at, in_range, load_sync_tx}
use mod_sec_intl_wace_lib.PluginManager.CheckResult.{tx_results}
use mod_sec_intl_wace_lib.PluginManager.Nats.{answer, encode_model_input, publish_results}
use mod_sec_intl_wace_lib.Core.Dispatch.{
  Dispatch, Launch, accepts, dispatches, keep, launch, local_call, route, sanitized_payload,
  sync_queue, tally,
}
use mod_sec_intl_wace_lib.Core.Wait.{arrived, sync_wait, wait_loop}
use mod_sec_intl_wace_lib.Core.Phase.{end_call, end_calls, open_channel}
use mod_sec_intl_wace_lib.Core.Outcomes.{outcome, results_after, statuses}
use mod_sec_intl_wace_lib.Core.SettleLaws.{Waits}
use mod_sec_intl_wace_lib.Core.RemoteLaws.{IsDue, end_call-settle, settle_if}
use mod_sec_intl_wace_lib.Core.SyncPhaseLaws.{sync_phase_lem}
use mod_sec_intl_wace_lib.Sanitize.Headers.{sanitize_credentials, sanitize_headers}
use mod_sec_intl_wace_lib.Sanitize.Fields.{sanitize_fields}
use mod_sec_intl_wace_lib.Core.SwapLaws.{ReadAlike}
use mod_sec_intl_wace_lib.Core.OrderLaws.{end_calls-ReadAlike}
use mathlib.Core.List.{Permᴰ}
use mod_sec_intl_wace_lib.Tests.Data.{open_store}
use mod_sec_intl_wace_lib.Tests.Wire.{far_phase, far_phase-KeepsId, far_store, only_uri}

-- A call of the remote model.
abbrev far_call : Dispatch
far_call = record { model = "far"; route = sync_queue; payload = only_uri (codes "/x") }

-- The open transaction, with room for two statuses.
abbrev two_store : Store
two_store = record open_store {
  sync_heap =
      (record { results = []; channels = some 1 ∷ none ∷ none ∷ none ∷ none ∷ none ∷ none ∷ [] })
      ∷ [];
  chans = (record { capacity = 1; buffer = [] }) ∷ (record { capacity = 2; buffer = [] }) ∷ [];
}

two_store-Waits : Waits far_phase two_store 0 [] (record { capacity = 2; buffer = [] })
unfolding load_sync_tx channel_at lookup
two_store-Waits = record {
  opened = refl;
  holds = (
    record { results = []; channels = some 1 ∷ none ∷ none ∷ none ∷ none ∷ none ∷ none ∷ [] },
    refl,
    refl,
    refl,
  );
  channel = refl;
}

far_call-IsDue : IsDue far_phase far_call
unfolding accepts route lookup is_async is_in_training is_remote
far_call-IsDue = (refl, refl)

end_call-settle_example :
    end_call far_phase far_call two_store
    ≡ settle_if far_phase two_store "far" (outcome far_phase far_call)
end_call-settle_example =
    end_call-settle far_phase two_store 0 [] (record { capacity = 2; buffer = [] }) two_store-Waits
      (omega arith) far_phase-KeepsId far_call far_call-IsDue

-- The remote model reports the probability that its plugin finds.
far_outcome : outcome far_phase far_call ≡ some (ok (record { prob_attack = 1; value = 7 }))
unfolding outcome encode_model_input eqb_int publish_results answer
far_outcome = refl

abbrev same_name : Bytes → Bytes → Bool
same_name xs ys = true

abbrev near_call : Dispatch
near_call = record { model = "trivial"; route = local_call; payload = only_uri (codes "/x") }

abbrev two_calls : Launch
two_calls = record { sync_counter = 2; async_counter = 0; calls = near_call ∷ far_call ∷ [] }

two_calls-launch :
    launch same_name far_store (only_uri (codes "/x")) ("trivial" ∷ "far" ∷ "other" ∷ []) (pos 0)
    ≡ some two_calls
unfolding launch sanitized_payload tally accepts lookup keep is_async is_in_training should_sanitize
    sanitize_credentials sanitize_fields dispatches is_remote sanitize_headers
two_calls-launch = refl

-- The remote call ends first.
far_first : Permᴰ (near_call ∷ far_call ∷ []) (far_call ∷ near_call ∷ [])
far_first = Permᴰ.swap refl refl

sync_phase_lem_example :
    (s' : Store) × (end_calls far_phase
        (far_call ∷ near_call ∷ [])
        (open_channel open_store "tx" (pos 0) 2)
      ≡ some s')
    × (tx_results s' 0 ≡ results_after far_phase (far_call ∷ near_call ∷ []) [])
    × (get_elem? s'.chans 1
        ≡ some (record { capacity = 2; buffer = statuses far_phase (far_call ∷ near_call ∷ []) }))
    × (((wait_loop sync_wait 2 (map arrived (statuses far_phase (far_call ∷ near_call ∷ [])))).ended
          ≡ true)
        ↔ (length (statuses far_phase (far_call ∷ near_call ∷ [])) ≡ 2))
unfolding load_sync_tx in_range lookup
sync_phase_lem_example =
    sync_phase_lem far_phase open_store 0
      (record { results = []; channels = some 0 ∷ none ∷ none ∷ none ∷ none ∷ none ∷ none ∷ [] })
      refl refl refl refl refl same_name (only_uri (codes "/x")) ("trivial" ∷ "far" ∷ "other" ∷ [])
      two_calls two_calls-launch (far_call ∷ near_call ∷ []) far_first far_phase-KeepsId
      (omega arith)

-- The calls in their own order.
near_first : Permᴰ (near_call ∷ far_call ∷ []) (near_call ∷ far_call ∷ [])
near_first = Permᴰ.cons refl (Permᴰ.cons refl Permᴰ.nil)

end_calls-ReadAlike_example :
    let start = open_channel open_store "tx" (pos 0) 2 in
    (s1 : Store) × (s2 : Store) × (end_calls far_phase (near_call ∷ far_call ∷ []) start ≡ some s1)
    × (end_calls far_phase (far_call ∷ near_call ∷ []) start ≡ some s2)
    × ReadAlike (tx_results s1 0) (tx_results s2 0)
    × (length (statuses far_phase (near_call ∷ far_call ∷ []))
        ≡ length (statuses far_phase (far_call ∷ near_call ∷ [])))
unfolding load_sync_tx in_range lookup
end_calls-ReadAlike_example =
    end_calls-ReadAlike far_phase open_store 0
      (record { results = []; channels = some 0 ∷ none ∷ none ∷ none ∷ none ∷ none ∷ none ∷ [] })
      refl refl refl refl refl same_name (only_uri (codes "/x")) ("trivial" ∷ "far" ∷ "other" ∷ [])
      two_calls two_calls-launch (near_call ∷ far_call ∷ []) (far_call ∷ near_call ∷ []) near_first
      far_first far_phase-KeepsId (omega arith)
