-- ===== src/Core/DispatchLaws.antt =====
-- wacecore.go, the loops of callPlugins over the models, one at a time.
use mod_sec_intl_wace_lib.Base.{
  Bool, Bool-cases, List, String, [], append-nil, append_assoc, arith, false, if◌then◌else◌, inl,
  inr, suc, true, ℕ, ◌++◌, ◌+◌, ◌||◌, ◌∙◌, ◌∷◌, ◌≡◌,
}
use mod_sec_intl_wace_lib.ConfigStore.PluginType.{ModelPluginType}
use mod_sec_intl_wace_lib.ConfigStore.Defs.{ConfigStore, should_sanitize}
use mod_sec_intl_wace_lib.Core.Dispatch.{
  Route, Tally, accepts, async_queue, keep, local_call, route, sync_queue, tally, training_call,
}

-- The models that are called, in their order.
unfoldable pub accepted : ConfigStore → ModelPluginType → List String → List String
accepted conf t [] = []
accepted conf t (id ∷ models) =
    let rest = accepted conf t models in if accepts conf t id then id ∷ rest else rest

-- A route that reports on the sync status channel, and one that reports on the async one.
abbrev pub is_sync_route : Route → Bool
is_sync_route async_queue = false
is_sync_route training_call = false
is_sync_route sync_queue = true
is_sync_route local_call = true

abbrev pub is_async_route : Route → Bool
is_async_route async_queue = true
is_async_route training_call = false
is_async_route sync_queue = false
is_async_route local_call = false

keep-filtered :
    (conf : ConfigStore) (id : String) (y : Tally)
    → (keep conf id y).filtered_models ≡ y.filtered_models ++ (id ∷ [])
unfolding keep
keep-filtered conf id y = ground arith

keep-sync :
    (conf : ConfigStore) (id : String) (y : Tally)
    → (keep conf id y).sync_counter
      ≡ (if is_sync_route (route conf id) then y.sync_counter + 1 else y.sync_counter)
unfolding keep route
keep-sync conf id y = ground arith

keep-async :
    (conf : ConfigStore) (id : String) (y : Tally)
    → (keep conf id y).async_counter
      ≡ (if is_async_route (route conf id) then y.async_counter + 1 else y.async_counter)
unfolding keep route
keep-async conf id y = ground arith

keep-mask :
    (conf : ConfigStore) (id : String) (y : Tally)
    → (keep conf id y).should_mask ≡ (y.should_mask || should_sanitize conf id)
unfolding keep
keep-mask conf id y = ground arith

-- Some model of a list wants a sanitized payload.
unfoldable pub any_mask : ConfigStore → List String → Bool
any_mask conf [] = false
any_mask conf (id ∷ ids) = should_sanitize conf id || any_mask conf ids

-- The routes of a kind among models.
unfoldable pub count_routes : ConfigStore → (Route → Bool) → List String → ℕ
count_routes conf p [] = 0
count_routes conf p (id ∷ ids) =
    let rest = count_routes conf p ids in if p (route conf id) then suc rest else rest

module _ (conf : ConfigStore) (t : ModelPluginType) where
  tally-accepts :
      (id : String) (models : List String) (y : Tally)
      → accepts conf t id ≡ true
      → tally conf t (id ∷ models) y ≡ tally conf t models (keep conf id y)
  unfolding tally
  tally-accepts id models y h = rw h

  tally-skips :
      (id : String) (models : List String) (y : Tally)
      → accepts conf t id ≡ false
      → tally conf t (id ∷ models) y ≡ tally conf t models y
  unfolding tally
  tally-skips id models y h = rw h

  pub tally-filtered :
      (models : List String) (y : Tally)
      → (tally conf t models y).filtered_models ≡ y.filtered_models ++ accepted conf t models
  unfolding accepted
  tally-filtered [] y = unfold tally in rw append-nil
  tally-filtered (id ∷ models) y = elim (Bool-cases (accepts conf t id)) [
    | inl h ↦
        rw (tally-accepts id models y h, h)
          (tally-filtered models (keep conf id y)
            ∙ rw keep-filtered (append_assoc y.filtered_models (id ∷ []) (accepted conf t models)))
    | inr h ↦ rw (tally-skips id models y h, h) (tally-filtered models y)
  ]

  pub tally-mask :
      (models : List String) (y : Tally)
      → (tally conf t models y).should_mask
        ≡ (y.should_mask || any_mask conf (accepted conf t models))
  unfolding accepted any_mask
  tally-mask [] y = unfold tally in ground arith
  tally-mask (id ∷ models) y = elim (Bool-cases (accepts conf t id)) [
    | inl h ↦
        rw (tally-accepts id models y h, h)
          (tally-mask models (keep conf id y) ∙ rw keep-mask (ground arith))
    | inr h ↦ rw (tally-skips id models y h, h) (tally-mask models y)
  ]

  pub tally-sync :
      (models : List String) (y : Tally)
      → (tally conf t models y).sync_counter
        ≡ y.sync_counter + count_routes conf is_sync_route (accepted conf t models)
  unfolding accepted count_routes
  tally-sync [] y = unfold tally in omega arith
  tally-sync (id ∷ models) y = elim (Bool-cases (accepts conf t id)) [
    | inl h ↦
        rw (tally-accepts id models y h, h)
          (tally-sync models (keep conf id y) ∙ rw keep-sync (ground arith))
    | inr h ↦ rw (tally-skips id models y h, h) (tally-sync models y)
  ]

  pub tally-async :
      (models : List String) (y : Tally)
      → (tally conf t models y).async_counter
        ≡ y.async_counter + count_routes conf is_async_route (accepted conf t models)
  unfolding accepted count_routes
  tally-async [] y = unfold tally in omega arith
  tally-async (id ∷ models) y = elim (Bool-cases (accepts conf t id)) [
    | inl h ↦
        rw (tally-accepts id models y h, h)
          (tally-async models (keep conf id y) ∙ rw keep-async (ground arith))
    | inr h ↦ rw (tally-skips id models y h, h) (tally-async models y)
  ]
