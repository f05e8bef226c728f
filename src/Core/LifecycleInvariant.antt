-- ===== src/Core/LifecycleInvariant.antt =====
-- wacecore.go, Init and Reload: what holds between the calls, over any sequence of them.
use mod_sec_intl_wace_lib.Base.{
  List, Option, Option-cases, Result, Result-cases, [], already_initialized, ap, inl, inr, none,
  not, refl, some, subst, sym, ℕ, ◌=ₛ◌, ◌∙◌, ◌∷◌, ◌≡◌,
}
use mod_sec_intl_wace_lib.ConfigStore.Defs.{ConfigFileData, ConfigPointer, ConfigStore, get}
use mod_sec_intl_wace_lib.ConfigStore.SetConfig.{set_config}
use mod_sec_intl_wace_lib.PluginManager.Loading.World.{World}
use mod_sec_intl_wace_lib.PluginManager.Loading.Manager.{Manager, new_manager}
use mod_sec_intl_wace_lib.PluginManager.Loading.ManagerLaws.{
  Managed, after_reload, created, first_world,
}
use mod_sec_intl_wace_lib.Core.Metrics.{CoreMetrics, meter_provider_or_noop, new_core_metrics}
use mod_sec_intl_wace_lib.Core.Lifecycle.{
  Answer, Call, Core, Host, call_all, call_core, create_manager, create_stored, init, init_call,
  logger_or_default, reload, reload_call, reload_plugins, returned, store_config,
}
use mod_sec_intl_wace_lib.Core.LifecycleLaws.{pair-eq, reload-Replaces, set_config-cases}
use mod_sec_intl_wace_lib.PluginManager.Loading.Connected.{
  new_manager-connected, reload_manager-connected,
}
use mod_sec_intl_wace_lib.PluginManager.Loading.Keyed.{IsStored}

-- The plugin manager of a configuration, if there is one: it was returned by `New` and reloaded since,
-- and it has a connection exactly when the configuration has a URL.
abbrev pub IsServed : ConfigStore → Option Manager → Type 0
IsServed cs none = Unit {0}
IsServed cs (some p) = Managed p × (p.connected ≡ not (cs.nats_url =ₛ ""))

-- Before a configuration is stored, nothing was made.
abbrev pub Fits : ConfigPointer → Option Manager → World → Type 0
Fits none manager w = (manager ≡ none) × (w ≡ first_world)
Fits (some cs) manager w = IsStored cs × IsServed cs manager

abbrev pub CoreInv : Core → Type 0
CoreInv c = Fits c.config c.manager c.world

create_manager-CoreInv :
    (h : Host) (c : Core) (cs : ConfigStore)
    → c.world ≡ first_world
    → IsStored cs
    → CoreInv (create_manager h (record c { config = some cs })).0
unfolding create_manager
create_manager-CoreInv h c cs first valid =
    subst (λ w. CoreInv (create_manager h (record c { config = some cs; world = w })).0) (sym first)
      (let o = new_manager h.env h.workers (some cs) first_world in
        elim (Option-cases o.1) [
          | inr (e, failed) ↦ rw (failed, create_manager) (valid, tt)
          | inl done ↦
              rw (done, create_manager)
                (
                  valid,
                  (
                    created h.env h.workers (some cs) o.0 (pair-eq refl done),
                    new_manager-connected h.env h.workers cs first_world done,
                  ),
                )
        ])

create_stored-CoreInv :
    (h : Host) (m : CoreMetrics) (conf : ConfigFileData) (c : Core)
    → c.config ≡ none
    → CoreInv c
    → CoreInv (create_stored h m c (set_config h.exists conf c.config)).0
unfolding create_stored
create_stored-CoreInv h m conf c none_yet v =
    let P : ConfigPointer × Result ConfigStore → Type 0 = λ o. CoreInv (create_stored h m c o).0 in
    elim (set_config-cases h.exists conf c.config) [
      | inl (e, refused) ↦ subst P (sym refused) v
      | inr (cs, valid, _, stored) ↦ subst P (sym stored) (
          create_manager-CoreInv h (record c { metrics = m }) cs
            (subst (λ config. Fits config c.manager c.world) none_yet v).1 valid)
    ]

store_config-CoreInv :
    (h : Host) (mp : Option ℕ) (conf : ConfigFileData) (c : Core)
    → c.config ≡ none
    → CoreInv c
    → CoreInv (store_config h mp conf c).0
unfolding store_config
store_config-CoreInv h mp conf c none_yet v =
    elim (Result-cases (new_core_metrics h.make_instrument (meter_provider_or_noop mp))) [
      | inl (e, made) ↦ rw (made, store_config) v
      | inr (m, made) ↦ rw (made, store_config) (create_stored-CoreInv h m conf c none_yet v)
    ]

init-CoreInv :
    (h : Host) (mp : Option ℕ) (conf : ConfigFileData) (l : Option ℕ) (c : Core)
    → CoreInv c
    → CoreInv (init h mp conf l c).0
unfolding init get
init-CoreInv h mp conf l c v =
    let P : Core × Answer → Type 0 = λ o. CoreInv o.0 in
    let c' = record c { logger = logger_or_default h l } in
    elim (Option-cases c.config) [
      | inr (cs, now) ↦
          let same : init h mp conf l c ≡ (c', returned (some already_initialized)) =
            simp (now, init) in
          subst P (sym same) v
      | inl none_yet ↦
          let same : init h mp conf l c ≡ store_config h mp conf c' = simp (none_yet, init) in
          subst P (sym same) (store_config-CoreInv h mp conf c' none_yet v)
    ]

reload_plugins-CoreInv :
    (h : Host) (cs : ConfigStore) (m : CoreMetrics) (l : ℕ) (manager : Option Manager) (w : World)
    → IsStored cs
    → IsServed cs manager
    → CoreInv
        (reload_plugins h
          (record { config = some cs; metrics = m; logger = l; manager = manager; world = w })).0
unfolding reload_plugins
reload_plugins-CoreInv h cs m l none w valid served = (valid, tt)
reload_plugins-CoreInv h cs m l (some p) w valid (managed, url) = (
  valid,
  (
    after_reload h.env h.workers (some cs) managed,
    reload_manager-connected h.env h.workers (some cs) p ∙ url,
  ),
)

IsServed-same :
    (cs cs' : ConfigStore) (manager : Option Manager)
    → cs'.nats_url ≡ cs.nats_url
    → IsServed cs manager
    → IsServed cs' manager
IsServed-same cs cs' none url served = tt
IsServed-same cs cs' (some p) url (managed, c) = (managed, c ∙ ap (λ u. not (u =ₛ "")) (sym url))

reload-CoreInv :
    (h : Host) (mp : Option ℕ) (conf : ConfigFileData) (l : Option ℕ) (c : Core)
    → CoreInv c
    → CoreInv (reload h mp conf l c).0
reload-CoreInv h mp conf l c v =
    let P : Core × Answer → Type 0 = λ o. CoreInv o.0 in
    elim (reload-Replaces h mp conf l c) [
      | inl (e, kept) ↦ subst P (sym kept) v
      | inr (current, now, url, (cs, m, valid, url', _, o)) ↦
          let (_, served) = subst (λ config. Fits config c.manager c.world) now v in
          subst P (sym o) (
            reload_plugins-CoreInv h cs m (logger_or_default h l) c.manager c.world valid
              (IsServed-same current cs c.manager (url' ∙ url) served))
    ]

-- The core of a process that starts, with its instruments and its logger.
abbrev pub first_core : CoreMetrics → ℕ → Core
first_core m l = record {
  config = none;
  metrics = m;
  logger = l;
  manager = none;
  world = first_world;
}

call_core-CoreInv : (x : Call) (c : Core) → CoreInv c → CoreInv (call_core x c).0
unfolding call_core
call_core-CoreInv (init_call h mp conf l) c v = init-CoreInv h mp conf l c v
call_core-CoreInv (reload_call h mp conf l) c v = reload-CoreInv h mp conf l c v

call_all_from-CoreInv : (calls : List Call) (c : Core) → CoreInv c → CoreInv (call_all calls c).0
unfolding call_all
call_all_from-CoreInv [] c v = v
call_all_from-CoreInv (x ∷ xs) c v =
    call_all_from-CoreInv xs (call_core x c).0 (call_core-CoreInv x c v)

-- After any sequence of calls of `Init` and `Reload` in a new process, whatever they answer, a
-- stored configuration is well formed, with each model plugin once under its own identifier; there
-- is no plugin manager without one; and a plugin manager is one that `New` returned, reloaded
-- since, with a NATS connection exactly when the stored configuration has a URL.
pub call_all-CoreInv :
    (calls : List Call) (m : CoreMetrics) (l : ℕ) → CoreInv (call_all calls (first_core m l)).0
call_all-CoreInv calls m l = call_all_from-CoreInv calls (first_core m l) (refl, refl)
