-- ===== src/Base/Results.antt =====
-- Errors as values: Go's pair of a value and an `error`, and the errors that the code returns.
use Prim.Native.String.{String}
use mathlib.Core.Path.{◌≡◌, refl}
use mathlib.Core.Logic.{◌⊎◌, inl, inr}
use mathlib.Core.Option.{Option, none, some}
use mathlib.Core.Bool.{Bool, true, false}
use mod_sec_intl_wace_lib.Base.Int.{ℤ}

-- One constructor for each place that makes an error. `external` is an error of a library or of a
-- plugin, passed on; the others carry what the message shows.
pub data Error : Type 0 where
  external : String → Error
  config_not_loaded : Error
  invalid_plugin_type : String → Error
  invalid_models_type : ℤ → Error
  invalid_collection_status : String → Error
  negative_model_timeout negative_async_timeout : ℤ → Error
  empty_path missing_path empty_plugin_type negative_timeout : String → Error
  training_and_async training_and_remote nats_url_needed bad_sample_counts : String → Error
  incompatible_type : ℤ → ℤ → Error
  model_is_async : Error
  model_not_found : String → Error
  results_not_found : Error
  decision_not_found multiple_enabled : Error
  no_such_transaction not_in_analysis_map : String → Error
  nats_url_changed : String → String → Error
  already_initialized : Error
  cannot_send : Error → Error
  joined : Error → Error → Error

-- A value, or the error that a function returns in its place.
pub data Result {ℓ} (V : Type ℓ) : Type ℓ where
  ok : V → Result V
  err : Error → Result V

-- `errors.Join` of two errors, either of which may be nil.
unfoldable pub join : Option Error → Option Error → Option Error
join none e = e
join (some a) none = some a
join (some a) (some b) = some (joined a b)

-- `if !b { return e }`
abbrev pub guard : Bool → Error → Result (Unit {0})
guard passed e = elim passed as (λ _. Result (Unit {0})) [ true ↦ ok tt | false ↦ err e ]

-- What follows `if err != nil { return err }`. An `abbrev`, so that chains of checks compute.
infixl 5 ◌>>◌ ◌>>=◌
abbrev pub ◌>>=◌ {ι κ} : {V : Type ι} {W : Type κ} → Result V → (V → Result W) → Result W
err e >>= next = err e
ok v >>= next = next v

abbrev pub ◌>>◌ {κ} : {W : Type κ} → Result (Unit {0}) → Result W → Result W
checked >> following = checked >>= λ _. following

-- A chain that succeeds has succeeded at each of its parts.
pub >>-eq-ok {κ} :
    {W : Type κ} (checked : Result (Unit {0})) (following : Result W) {w : W}
    → (checked >> following) ≡ ok w
    → (checked ≡ ok tt) × (following ≡ ok w)
>>-eq-ok (err e) following p = cc
>>-eq-ok (ok _) following p = (refl, p)

pub >>=-eq-ok {ι κ} :
    {V : Type ι} {W : Type κ} (first : Result V) (next : V → Result W) {w : W}
    → (first >>= next) ≡ ok w
    → (v : V) × (first ≡ ok v) × (next v ≡ ok w)
>>=-eq-ok (err e) next p = cc
>>=-eq-ok (ok v) next p = (v, refl, p)

-- To split on a computed result and keep the equation.
pub Result-cases {ι} :
    {V : Type ι} (m : Result V) → ((e : Error) × (m ≡ err e)) ⊎ ((v : V) × (m ≡ ok v))
Result-cases (err e) = inl (e, refl)
Result-cases (ok v) = inr (v, refl)
