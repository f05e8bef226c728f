-- ===== src/Core/Metrics.antt =====
-- metrics.go, newCoreMetrics and meterProviderOrNoop: the instruments of the core. An instrument is
-- known by a number that the meter gives.
use mod_sec_intl_wace_lib.Base.{Error, Option, Result, String, err, join, none, ok, some, ℕ}

-- A provider of the host, or that of `noop.NewMeterProvider`.
pub data MeterProvider : Type 0 where
  noop_provider : MeterProvider
  host_provider : ℕ → MeterProvider

-- `meterProviderOrNoop`
unfoldable pub meter_provider_or_noop : Option ℕ → MeterProvider
meter_provider_or_noop none = noop_provider
meter_provider_or_noop (some p) = host_provider p

-- `coreMetrics`
pub record CoreMetrics : Type 0 where
  pub model_duration : ℕ
  pub attack_prob : ℕ
  pub model_errors : ℕ
  pub model_timeouts : ℕ
  pub tx_checked : ℕ

-- `newCoreMetrics`: every instrument is created, and one error is enough to keep none. `make` is the
-- meter, which answers with an instrument and an error.
unfoldable pub new_core_metrics :
    (MeterProvider → String → ℕ × Option Error) → MeterProvider → Result CoreMetrics
unfolding join
new_core_metrics make mp =
    let (model_duration, err1) = make mp "wace.model.duration" in
    let (attack_prob, err2) = make mp "wace.model.attack_probability" in
    let (model_errors, err3) = make mp "wace.model.errors" in
    let (model_timeouts, err4) = make mp "wace.model.timeouts" in
    let (tx_checked, err5) = make mp "wace.transaction.checked" in
    elim (join (join (join (join (join none err1) err2) err3) err4) err5) [
      | some e ↦ err e
      | none ↦ ok (record {
        model_duration = model_duration;
        attack_prob = attack_prob;
        model_errors = model_errors;
        model_timeouts = model_timeouts;
        tx_checked = tx_checked;
      })
    ]
