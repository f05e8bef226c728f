-- ===== src/Core/LifecycleLaws.antt =====
-- wacecore.go, Init and Reload: what a call changes, and what holds between the calls.
use mod_sec_intl_wace_lib.Base.{
  =ₛ_iff, Bool, Bool-cases, Error, Option, Option-cases, Result-cases, String, ap,
  config_not_loaded, err, inl, inr, nats_url_changed, ok, refl, some, ℕ, ◌=ₛ◌, ◌∙◌, ◌≡◌, ◌⊎◌,
}
use mod_sec_intl_wace_lib.ConfigStore.Defs.{ConfigFileData, ConfigPointer, ConfigStore, get}
use mod_sec_intl_wace_lib.ConfigStore.SetConfig.{new_store, set_config}
use mod_sec_intl_wace_lib.ConfigStore.SetConfigLaws.{
  set_config-IsValid, set_config-keeps, set_config_inv,
}
use mod_sec_intl_wace_lib.Core.Metrics.{CoreMetrics, meter_provider_or_noop, new_core_metrics}
use mod_sec_intl_wace_lib.Core.Lifecycle.{
  Answer, Core, Host, apply_config, apply_stored, logger_or_default, reload, reload_plugins,
  returned,
}
use mod_sec_intl_wace_lib.PluginManager.Loading.Keyed.{
  IsStored, set_config-AreKeyed, set_config-IsKeyed,
}

pub pair-eq : {A B : Type 0} {a a' : A} {b b' : B} → a ≡ a' → b ≡ b' → Path (A × B) (a, b) (a', b')
pair-eq p q = cc

-- A call of `Reload` that stores the configuration `cs`, with the instruments `m`, and then reloads
-- the plugins under them.
abbrev pub Replaces : Host → Option ℕ → ConfigFileData → Option ℕ → Core → Core × Answer → Type 0
Replaces h mp conf l c o =
    (cs : ConfigStore) × (m : CoreMetrics) × IsStored cs
    × (cs.nats_url ≡ conf.nats_url)
    × (new_core_metrics h.make_instrument (meter_provider_or_noop mp) ≡ ok m)
    × (o
        ≡ reload_plugins h
            (record c { config = some cs; metrics = m; logger = logger_or_default h l }))

-- `SetConfig` keeps the configuration from before, or stores a well-formed one with the URL
-- of the file.
pub set_config-cases :
    (exists : String → Bool) (f : ConfigFileData) (current : ConfigPointer)
    → ((e : Error) × (set_config exists f current ≡ (current, err e)))
      ⊎ ((cs : ConfigStore) × IsStored cs
          × (cs.nats_url ≡ f.nats_url)
          × (set_config exists f current ≡ (some cs, ok cs)))
unfolding new_store
set_config-cases exists f current = elim (Result-cases (set_config exists f current).1) [
  | inl (e, refused) ↦ inl (e, pair-eq (set_config-keeps exists f current e refused) refused)
  | inr (cs, stored) ↦
      let (models, _, _, same, kept) = set_config_inv exists f current cs stored in
      inr (
        cs,
        (
          (set_config-IsValid exists f current cs stored).1,
          set_config-IsKeyed exists f current cs stored,
          set_config-AreKeyed exists f current cs stored,
        ),
        ap (λ (c : ConfigStore). c.nats_url) same,
        pair-eq kept stored,
      )
]

apply_config-lem :
    (h : Host) (mp : Option ℕ) (conf : ConfigFileData) (l : Option ℕ) (c : Core)
    → let o = apply_config h mp conf l c in
      ((e : Error) × (o ≡ (c, returned (some e)))) ⊎ Replaces h mp conf l c o
unfolding apply_config apply_stored
apply_config-lem h mp conf l c =
    elim (Result-cases (new_core_metrics h.make_instrument (meter_provider_or_noop mp))) [
      | inl (e, made) ↦ rw (made, apply_config) (inl (e, refl))
      | inr (m, made) ↦
          rw (made, apply_config)
            (elim (set_config-cases h.exists conf c.config) [
              | inl (e, refused) ↦ inl (e, ap (apply_stored h l m c) refused)
              | inr (cs, valid, url, stored) ↦
                  inr (cs, m, valid, url, refl, ap (apply_stored h l m c) stored)
            ])
    ]

-- `Reload` either returns an error and changes nothing, whether the core is not initialized, the
-- NATS URL differs, or the instruments or the configuration are refused; or it stores a well-formed
-- configuration, with each model plugin once under its own identifier and the NATS URL of the one
-- before, the new instruments and the new logger, and ends as the reload of the plugins under them
-- does.
pub reload-Replaces :
    (h : Host) (mp : Option ℕ) (conf : ConfigFileData) (l : Option ℕ) (c : Core)
    → let o = reload h mp conf l c in
      ((e : Error) × (o ≡ (c, returned (some e))))
      ⊎ ((current : ConfigStore) × (c.config ≡ some current)
          × (conf.nats_url ≡ current.nats_url)
          × Replaces h mp conf l c o)
unfolding reload get
reload-Replaces h mp conf l c = elim (Option-cases c.config) [
  | inl none_yet ↦ inl (config_not_loaded, simp (none_yet, reload))
  | inr (current, now) ↦ elim (Bool-cases (conf.nats_url =ₛ current.nats_url)) [
    | inr differs ↦
        inl (nats_url_changed current.nats_url conf.nats_url, simp (now, differs, reload))
    | inl same ↦
        let applied : reload h mp conf l c ≡ apply_config h mp conf l c =
          simp (now, same, reload) in
        elim (apply_config-lem h mp conf l c) [
          | inl (e, kept) ↦ inl (e, applied ∙ kept)
          | inr (cs, m, valid, url, made, o) ↦ inr (
            current,
            now,
            (=ₛ_iff conf.nats_url current.nats_url).0 same,
            (cs, m, valid, url, made, applied ∙ o),
          )
        ]
  ]
]
