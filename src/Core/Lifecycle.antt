-- ===== src/Core/Lifecycle.antt =====
-- wacecore.go, Init and Reload: the configuration, the instruments, the logger and the plugin manager
-- of the core, over any sequence of the two calls.
use mod_sec_intl_wace_lib.Base.{
  Bool, Error, List, Option, Result, String, [], already_initialized, err, if◌then◌else◌,
  nats_url_changed, none, ok, some, ℕ, ◌=ₛ◌, ◌∷◌,
}
use mod_sec_intl_wace_lib.ConfigStore.Defs.{ConfigFileData, ConfigPointer, ConfigStore, get}
use mod_sec_intl_wace_lib.ConfigStore.SetConfig.{set_config}
use mod_sec_intl_wace_lib.PluginManager.Loading.World.{Env, World}
use mod_sec_intl_wace_lib.PluginManager.Loading.Manager.{Manager, new_manager, reload_manager}
use mod_sec_intl_wace_lib.Core.Metrics.{
  CoreMetrics, MeterProvider, meter_provider_or_noop, new_core_metrics,
}

-- What one call finds outside: the plugin files, the meter of the core, `slog.Default()`, what the
-- plugin manager finds, and `processWorkers`. A logger is known by a number.
pub record Host : Type 0 where
  pub exists : String → Bool
  pub make_instrument : MeterProvider → String → ℕ × Option Error
  pub default_logger : ℕ
  pub env : Env
  pub workers : ℕ

-- The package variables of the core and the pointer of the configuration store. `world` is what the
-- plugin managers have left that New has not returned.
pub record Core : Type 0 where
  pub config : ConfigPointer
  pub metrics : CoreMetrics
  pub logger : ℕ
  pub manager : Option Manager
  pub world : World

-- An error or nil, or a panic by the nil pointer of a plugin manager.
pub data Answer : Type 0 where
  returned : Option Error → Answer
  panicked : Answer

-- `if l == nil { l = slog.Default() }`
unfoldable pub logger_or_default : Host → Option ℕ → ℕ
logger_or_default h none = h.default_logger
logger_or_default h (some l) = l

-- `return pm.Reload(mp, l)`
unfoldable pub reload_plugins : Host → Core → Core × Answer
reload_plugins h c = elim c.manager [
  | none ↦ (c, panicked)
  | some p ↦
      let (p', e) = reload_manager h.env h.workers c.config p in
      (record c { manager = some p' }, returned e)
]

-- `Reload` behind `SetConfig`.
unfoldable pub apply_stored :
    Host → Option ℕ → CoreMetrics → Core → ConfigPointer × Result ConfigStore → Core × Answer
unfolding reload_plugins
apply_stored h l metrics c (pointer, err e) = (record c { config = pointer }, returned (some e))
apply_stored h l metrics c (pointer, ok _) =
    reload_plugins h
      (record c { config = pointer; logger = logger_or_default h l; metrics = metrics })

-- `Reload` behind its first two tests.
unfoldable pub apply_config : Host → Option ℕ → ConfigFileData → Option ℕ → Core → Core × Answer
unfolding apply_stored
apply_config h mp conf l c = elim (new_core_metrics h.make_instrument (meter_provider_or_noop mp)) [
  | err e ↦ (c, returned (some e))
  | ok metrics ↦ apply_stored h l metrics c (set_config h.exists conf c.config)
]

-- `Reload`
unfoldable pub reload : Host → Option ℕ → ConfigFileData → Option ℕ → Core → Core × Answer
unfolding apply_config
reload h mp conf l c = elim (get c.config) [
  | err e ↦ (c, returned (some e))
  | ok current ↦
      if conf.nats_url =ₛ current.nats_url
      then apply_config h mp conf l c
      else (c, returned (some (nats_url_changed current.nats_url conf.nats_url)))
]

-- `pm, err = pluginmanager.New(mp, l)`
unfoldable pub create_manager : Host → Core → Core × Answer
create_manager h c =
    let (p, e) = new_manager h.env h.workers c.config c.world in
    elim e [
      | some e' ↦ (record c { manager = none; world = p.world }, returned (some e'))
      | none ↦ (record c { manager = some p }, returned none)
    ]

-- `Init` behind `SetConfig`.
unfoldable pub create_stored :
    Host → CoreMetrics → Core → ConfigPointer × Result ConfigStore → Core × Answer
unfolding create_manager
create_stored h metrics c (pointer, err e) = (record c { config = pointer }, returned (some e))
create_stored h metrics c (pointer, ok _) =
    create_manager h (record c { config = pointer; metrics = metrics })

-- `Init` behind its test.
unfoldable pub store_config : Host → Option ℕ → ConfigFileData → Core → Core × Answer
unfolding create_stored
store_config h mp conf c = elim (new_core_metrics h.make_instrument (meter_provider_or_noop mp)) [
  | err e ↦ (c, returned (some e))
  | ok metrics ↦ create_stored h metrics c (set_config h.exists conf c.config)
]

-- `Init`
unfoldable pub init : Host → Option ℕ → ConfigFileData → Option ℕ → Core → Core × Answer
unfolding store_config
init h mp conf l c =
    let c' = record c { logger = logger_or_default h l } in
    elim (get c.config) [
      | ok _ ↦ (c', returned (some already_initialized))
      | err _ ↦ store_config h mp conf c'
    ]

-- A call of the host, with what it finds.
pub data Call : Type 0 where
  init_call reload_call : Host → Option ℕ → ConfigFileData → Option ℕ → Call

unfoldable pub call_core : Call → Core → Core × Answer
unfolding init reload
call_core (init_call h mp conf l) c = init h mp conf l c
call_core (reload_call h mp conf l) c = reload h mp conf l c

-- The calls one after another.
unfoldable pub call_all : List Call → Core → Core × List Answer
unfolding call_core
call_all [] c = (c, [])
call_all (x ∷ xs) c =
    let (c', a) = call_core x c in let (last, rest) = call_all xs c' in (last, a ∷ rest)
