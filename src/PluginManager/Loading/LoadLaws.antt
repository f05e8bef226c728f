-- ===== src/PluginManager/Loading/LoadLaws.antt =====
-- pluginmanager/pluginmanager.go, the ledger over the loops of loadModelPlugins.
use mod_sec_intl_wace_lib.Base.{
  =ₛ_iff, All, Bool-cases, Distinct, Distinct-erase, List, Map, Option-cases, String, [], amount,
  ap, arith, erase, inl, inr, lookup, lookup-erase, none, refl, some, sum_of-erase, ℕ, ◌+◌, ◌∷◌,
  ◌≡◌,
}
use mod_sec_intl_wace_lib.ConfigStore.Defs.{ConfigPointer, ConfigStore, ModelPluginConfig, get}
use mod_sec_intl_wace_lib.PluginManager.Process.{ModelPluginData}
use mod_sec_intl_wace_lib.PluginManager.Loading.World.{Env, Resource, Role, handler_of, instance_of}
use mod_sec_intl_wace_lib.PluginManager.Loading.Models.{
  Models, is_configured, load_model_plugins, load_models_loop, load_round, unload_model,
  unload_models_loop, values,
}
use mod_sec_intl_wace_lib.PluginManager.Loading.Ledger.{here}
use mod_sec_intl_wace_lib.PluginManager.Loading.LedgerLaws.{give_back-instance_of-IsSound}
use mod_sec_intl_wace_lib.PluginManager.Loading.HandlersLaws.{
  give_back?-training_of-IsSound, held, model_uses, stop_handlers-IsSound,
}
use mod_sec_intl_wace_lib.PluginManager.Loading.AdaptLaws.{model_uses-training, model_uses_own}
use mod_sec_intl_wace_lib.PluginManager.Loading.EquipLaws.{
  here_instance, models_use, models_use-handler_of,
}
use mod_sec_intl_wace_lib.PluginManager.Loading.ModelsLaws.{
  IsKept, load_model-IsKept, reload_model-IsKept,
}

-- What a map says of each of its entries.
abbrev pub AllFound {ℓ} : {V : Type ℓ} → Map V → Map V → Type ℓ
AllFound m = All (λ (k, v). lookup k m ≡ some v)

pub AllFound-cons {ℓ} :
    {V : Type ℓ} (k : String) (v : V) (m rest : Map V)
    → lookup k rest ≡ none
    → AllFound m rest
    → AllFound ((k, v) ∷ m) rest
unfolding lookup
AllFound-cons k v m [] h f = tt
AllFound-cons k v m ((j, w) ∷ rest) h f =
    ground (arith, =ₛ_iff k j, =ₛ_iff j k, AllFound-cons k v m rest)

pub AllFound-self {ℓ} : {V : Type ℓ} (m : Map V) → Distinct m → AllFound m m
unfolding lookup
AllFound-self [] h = tt
AllFound-self ((k, v) ∷ m) h =
    (ground (arith, =ₛ_iff k k), AllFound-cons k v m m h.0 (AllFound-self m h.1))

pub AllFound-erase {ℓ} :
    {V : Type ℓ} (k : String) (m rest : Map V)
    → lookup k rest ≡ none
    → AllFound m rest
    → AllFound (erase k m) rest
unfolding lookup
AllFound-erase k m [] h f = tt
AllFound-erase k m ((j, w) ∷ rest) h f =
    ground (arith, =ₛ_iff k j, =ₛ_iff j k, lookup-erase k j m, AllFound-erase k m rest)

model_uses_stopped :
    (r : Resource) (mp : ModelPluginData) (n : ℕ)
    → model_uses r (record mp { training = none })
        + n
        + model_uses r (record mp { process_handler = none; results_handler = none })
      ≡ model_uses r mp + (here r (instance_of mp.model_plugin) + n)
unfolding model_uses held
model_uses_stopped r mp n = omega arith

module _ (others : Resource → ℕ)
    (quiet : (role : Role) (i n : ℕ) → others (handler_of role i n) ≡ 0) where
  pub load_models_loop-IsKept :
      (env : Env) (workers : ℕ) (conf : ConfigStore) (ms : List ModelPluginConfig) (s : Models)
      → IsKept others s
      → IsKept others (load_models_loop env workers conf ms s)
  unfolding load_models_loop
  load_models_loop-IsKept env workers conf [] s k = k
  load_models_loop-IsKept env workers conf (m ∷ ms) s k =
      elim (Option-cases (lookup m.id s.plugins)) [
        | inl e ↦
            rw (e, load_models_loop, load_round)
              (load_models_loop-IsKept env workers conf ms _
                (load_model-IsKept others quiet env workers conf m s k e))
        | inr (mp, e) ↦
            rw (e, load_models_loop, load_round)
              (load_models_loop-IsKept env workers conf ms _
                (reload_model-IsKept others quiet env workers conf m mp s k e))
      ]

  -- The instance of a plugin is held by no other.
  sole_instance :
      (s : Models) (id : String) (mp : ModelPluginData)
      → IsKept others s
      → lookup id s.plugins ≡ some mp
      → models_use (instance_of mp.model_plugin) (erase id s.plugins) ≡ 0
  unfolding amount
  sole_instance s id mp k found =
      let i = mp.model_plugin in
      omega (
        arith,
        k.sound.balance (instance_of i),
        k.sound.single i,
        model_uses_own mp,
        ap (amount (model_uses (instance_of i))) found,
        sum_of-erase (model_uses (instance_of i)) id s.plugins k.distinct,
      )

  unload_model-IsKept :
      (id : String) (mp : ModelPluginData) (s : Models)
      → IsKept others s
      → lookup id s.plugins ≡ some mp
      → IsKept others (unload_model id mp s)
  unfolding unload_model amount held
  unload_model-IsKept id mp s k found =
      let i = mp.model_plugin in
      let after : Resource → ℕ = λ r. models_use r (erase id s.plugins) + others r in
      let untrained =
        give_back?-training_of-IsSound s.world _
          (λ r. model_uses r (record mp { training = none }) + after r) mp.training k.sound
          (λ r. omega (
            arith,
            ap (amount (model_uses r)) found,
            sum_of-erase (model_uses r) id s.plugins k.distinct,
            model_uses-training r mp none,
          )) in
      let stopped =
        stop_handlers-IsSound mp _ _ (λ r. here r (instance_of i) + after r) untrained
          (λ r. model_uses_stopped r mp (after r)) in
      record {
        sound =
            give_back-instance_of-IsSound _ _ after stopped i
              (λ role n. omega (
                arith,
                here_instance role i n i,
                quiet role i n,
                models_use-handler_of role i n (erase id s.plugins) (sole_instance s id mp k found),
              ))
              (λ r. refl);
        distinct = Distinct-erase id s.plugins k.distinct;
        paired = λ j mp' e. ground (arith, lookup-erase id j s.plugins, k.paired j mp');
      }

  pub unload_models_loop-IsKept :
      (conf : ConfigStore) (rest : Map ModelPluginData) (s : Models)
      → IsKept others s
      → Distinct rest
      → AllFound s.plugins rest
      → IsKept others (unload_models_loop conf rest s)
  unfolding unload_models_loop
  unload_models_loop-IsKept conf [] s k d f = k
  unload_models_loop-IsKept conf ((id, mp) ∷ rest) s k (new, d) (found, f) =
      elim (Bool-cases (is_configured conf id)) [
        | inl c ↦ rw (c, unload_models_loop) (unload_models_loop-IsKept conf rest s k d f)
        | inr c ↦
            rw (c, unload_models_loop)
              (unload_models_loop-IsKept conf rest (unload_model id mp s)
                (unload_model-IsKept id mp s k found) d (AllFound-erase id s.plugins rest new f))
      ]

  -- `loadModelPlugins` keeps the ledger.
  pub load_model_plugins-IsKept :
      (env : Env) (workers : ℕ) (config : ConfigPointer) (s : Models)
      → IsKept others s
      → IsKept others (load_model_plugins env workers config s).0
  unfolding load_model_plugins get
  load_model_plugins-IsKept env workers none s k = k
  load_model_plugins-IsKept env workers (some conf) s k =
      let k' = load_models_loop-IsKept env workers conf (values conf.model_plugins) s k in
      unload_models_loop-IsKept conf _ _ k' k'.distinct (AllFound-self _ k'.distinct)
