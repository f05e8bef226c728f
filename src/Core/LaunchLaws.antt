-- ===== src/Core/LaunchLaws.antt =====
-- wacecore.go, callPlugins up to its calls; metrics.go of pluginmanager for the mode of a call.
use mod_sec_intl_wace_lib.Base.{
  Bool, Bool-cases, List, String, [], ap, arith, false, if◌then◌else◌, inl, inr, map, refl, some,
  suc, sym, true, ℕ, ◌||◌, ◌∙◌, ◌∷◌, ◌≡◌,
}
use mod_sec_intl_wace_lib.WaceApi.{Bytes, HttpPayload}
use mod_sec_intl_wace_lib.ConfigStore.PluginType.{ModelPluginType}
use mod_sec_intl_wace_lib.ConfigStore.Defs.{ConfigStore, should_sanitize}
use mod_sec_intl_wace_lib.Sanitize.HeadersLaws.{masked_payload, sanitize_credentials_lem}
use mod_sec_intl_wace_lib.PluginManager.Loaded.{Mode, async, model_mode, remote, sync, training}
use mod_sec_intl_wace_lib.Core.Dispatch.{
  Dispatch, Launch, Route, async_queue, dispatches, launch, local_call, no_tally, route,
  sanitized_payload, sync_queue, tally, training_call, zero_payload,
}
use mod_sec_intl_wace_lib.Core.DispatchLaws.{
  accepted, any_mask, count_routes, is_async_route, is_sync_route, tally-async, tally-filtered,
  tally-mask, tally-sync,
}

-- How many of the calls take a route of a kind.
unfoldable pub count_calls : (Route → Bool) → List Dispatch → ℕ
count_calls p [] = 0
count_calls p (d ∷ ds) = let rest = count_calls p ds in if p d.route then suc rest else rest

or_false : (a b : Bool) → (a || b) ≡ false → (a ≡ false) × (b ≡ false)
or_false false b h = (refl, h)
or_false true b h = cc

module _ (equal_fold : Bytes → Bytes → Bool) (conf : ConfigStore) (input : HttpPayload) where
  -- The call that a model is due: by its route, and with the masked payload if it asks for that.
  unfoldable pub call_of : String → Dispatch
  call_of id = record {
    model = id;
    route = route conf id;
    payload =
        if should_sanitize conf id
        then masked_payload equal_fold conf.credential_headers input
        else input;
  }

  dispatches-masked :
      (ids : List String)
      → dispatches conf ids input (masked_payload equal_fold conf.credential_headers input)
        ≡ map call_of ids
  unfolding dispatches call_of
  dispatches-masked [] = refl
  dispatches-masked (id ∷ ids) = ap (λ l. call_of id ∷ l) (dispatches-masked ids)

  dispatches-plain :
      (ids : List String) (other : HttpPayload)
      → any_mask conf ids ≡ false
      → dispatches conf ids input other ≡ map call_of ids
  unfolding dispatches call_of any_mask
  dispatches-plain [] other h = refl
  dispatches-plain (id ∷ ids) other h =
      let (first, more) = or_false (should_sanitize conf id) (any_mask conf ids) h in
      rw (dispatches-plain ids other more, first)

  count_calls-map :
      (p : Route → Bool) (ids : List String)
      → count_calls p (map call_of ids) ≡ count_routes conf p ids
  unfolding count_calls count_routes call_of
  count_calls-map p [] = refl
  count_calls-map p (id ∷ ids) = rw (count_calls-map p ids)

  launch-at :
      (models : List String) (t : ModelPluginType) (m : HttpPayload)
      → sanitized_payload equal_fold conf (tally conf t models no_tally) input ≡ some m
      → launch equal_fold conf input models t
        ≡ some (record {
          sync_counter = (tally conf t models no_tally).sync_counter;
          async_counter = (tally conf t models no_tally).async_counter;
          calls = dispatches conf (tally conf t models no_tally).filtered_models input m;
        })
  unfolding launch
  launch-at models t m h = rw (h, launch)

  -- The payload that is passed as the sanitized one, and the calls that come of it.
  sanitized-calls :
      (models : List String) (t : ModelPluginType)
      → (m : HttpPayload) × (sanitized_payload equal_fold conf (tally conf t models no_tally) input
          ≡ some m)
        × (dispatches conf (accepted conf t models) input m ≡ map call_of (accepted conf t models))
  unfolding sanitized_payload
  sanitized-calls models t = elim (Bool-cases (tally conf t models no_tally).should_mask) [
    | inl wanted ↦ (
      masked_payload equal_fold conf.credential_headers input,
      rw wanted (sanitize_credentials_lem equal_fold conf.credential_headers input),
      dispatches-masked (accepted conf t models),
    )
    | inr unwanted ↦ (
      zero_payload,
      rw unwanted,
      dispatches-plain (accepted conf t models) zero_payload
          (sym (tally-mask conf t models no_tally) ∙ unwanted),
    )
  ]

  -- The calls of a launch, and the capacities of the two status channels.
  pub launch_lem :
      (models : List String) (t : ModelPluginType)
      → (l : Launch) × (launch equal_fold conf input models t ≡ some l)
        × (l.calls ≡ map call_of (accepted conf t models))
        × (l.sync_counter ≡ count_calls is_sync_route l.calls)
        × (l.async_counter ≡ count_calls is_async_route l.calls)
  launch_lem models t =
      let y = tally conf t models no_tally in
      let (m, given, same) = sanitized-calls models t in
      (
        record {
          sync_counter = y.sync_counter;
          async_counter = y.async_counter;
          calls = map call_of (accepted conf t models);
        },
        launch-at models t m given ∙ rw (tally-filtered conf t models no_tally, same),
        refl,
        tally-sync conf t models no_tally
            ∙ omega (arith, count_calls-map is_sync_route (accepted conf t models)),
        tally-async conf t models no_tally
            ∙ omega (arith, count_calls-map is_async_route (accepted conf t models)),
      )

-- What callPlugins makes for a type, given its configuration.
abbrev pub IsLaunch :
    (Bytes → Bytes → Bool)
    → ConfigStore
    → HttpPayload
    → List String
    → ModelPluginType
    → Launch
    → Type 0
IsLaunch equal_fold conf input models t l =
    (l.calls ≡ map (call_of equal_fold conf input) (accepted conf t models))
    × (l.sync_counter ≡ count_calls is_sync_route l.calls)
    × (l.async_counter ≡ count_calls is_async_route l.calls)

-- The mode under which the metrics count a model.
abbrev pub mode_of : Route → Mode
mode_of async_queue = async
mode_of training_call = training
mode_of sync_queue = remote
mode_of local_call = sync

-- The mode of a model plugin in the metrics is always that of the route by which it is called.
pub model_mode-route :
    (conf : ConfigStore) (id : String) → model_mode conf id ≡ mode_of (route conf id)
unfolding model_mode route
model_mode-route conf id = ground arith
