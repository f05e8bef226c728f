-- ===== src/Core/Stuck.antt =====
-- wacecore.go, Init and Reload after an Init that has stored its configuration and then failed to
-- create the plugin manager.
use mod_sec_intl_wace_lib.Base.{
  All, List, Option, Option-cases, [], already_initialized, inl, inr, none, some, subst, sym, ℕ,
  ◌∷◌, ◌≡◌, ◌≢◌,
}
use mod_sec_intl_wace_lib.ConfigStore.Defs.{ConfigFileData, get}
use mod_sec_intl_wace_lib.Core.Lifecycle.{
  Answer, Call, Core, Host, call_all, call_core, init, init_call, logger_or_default, panicked,
  reload, reload_call, reload_plugins, returned,
}
use mod_sec_intl_wace_lib.Core.LifecycleLaws.{reload-Replaces}

-- There is a configuration, and no plugin manager.
abbrev pub IsStuck : Core → Type 0
IsStuck c = (c.config ≢ none) × (c.manager ≡ none)

-- A call that leaves it so, and does not succeed.
abbrev LeavesStuck : Core × Answer → Type 0
LeavesStuck o = IsStuck o.0 × (o.1 ≢ returned none)

init-LeavesStuck :
    (h : Host) (mp : Option ℕ) (conf : ConfigFileData) (l : Option ℕ) (c : Core)
    → IsStuck c
    → LeavesStuck (init h mp conf l c)
unfolding init get
init-LeavesStuck h mp conf l c (some_config, no_manager) = elim (Option-cases c.config) [
  | inl e ↦ absurd (some_config e)
  | inr (cs, now) ↦
      let same : init h mp conf l c
          ≡ (record c { logger = logger_or_default h l }, returned (some already_initialized)) =
        simp (now, init) in
      subst LeavesStuck (sym same) ((some_config, no_manager), λ e. cc)
]

reload_plugins-LeavesStuck : (h : Host) (c : Core) → IsStuck c → LeavesStuck (reload_plugins h c)
unfolding reload_plugins
reload_plugins-LeavesStuck h c (some_config, no_manager) =
    let same : reload_plugins h c ≡ (c, panicked) = simp (no_manager, reload_plugins) in
    subst LeavesStuck (sym same) ((some_config, no_manager), λ e. cc)

reload-LeavesStuck :
    (h : Host) (mp : Option ℕ) (conf : ConfigFileData) (l : Option ℕ) (c : Core)
    → IsStuck c
    → LeavesStuck (reload h mp conf l c)
reload-LeavesStuck h mp conf l c (some_config, no_manager) = elim (reload-Replaces h mp conf l c) [
  | inl (e, kept) ↦ subst LeavesStuck (sym kept) ((some_config, no_manager), λ e. cc)
  | inr (current, now, url, (cs, m, valid, url', _, o)) ↦
      subst LeavesStuck (sym o) (reload_plugins-LeavesStuck h _ ((λ e. cc), no_manager))
]

call_core-LeavesStuck : (x : Call) (c : Core) → IsStuck c → LeavesStuck (call_core x c)
unfolding call_core
call_core-LeavesStuck (init_call h mp conf l) c s = init-LeavesStuck h mp conf l c s
call_core-LeavesStuck (reload_call h mp conf l) c s = reload-LeavesStuck h mp conf l c s

-- Once a configuration is stored and there is no plugin manager, no later call of `Init` or
-- `Reload` succeeds, in any sequence of them: each ends with an error or a panic.
pub stuck_for_good :
    (calls : List Call) (c : Core) → IsStuck c → All (λ a. a ≢ returned none) (call_all calls c).1
unfolding call_all
stuck_for_good [] c s = tt
stuck_for_good (x ∷ xs) c s =
    let (s', failed) = call_core-LeavesStuck x c s in
    (failed, stuck_for_good xs (call_core x c).0 s')
