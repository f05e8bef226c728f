-- ===== src/PluginManager/Loading/EquipLaws.antt =====
-- pluginmanager/pluginmanager.go, the ledger over a model plugin that is equipped, when it is new.
use mod_sec_intl_wace_lib.Base.{
  Map, Option, Result, String, ap, arith, err, false, if-elim, none, ok, refl, some, sum_of,
  sum_of_zero, sym, ℕ, ◌+◌, ◌∙◌, ◌≡◌,
}
use mod_sec_intl_wace_lib.ConfigStore.Defs.{ConfigStore, is_in_training}
use mod_sec_intl_wace_lib.PluginManager.Process.{ModelPluginData}
use mod_sec_intl_wace_lib.PluginManager.Loading.World.{
  Env, Resource, Role, World, handler_of, inputs, instance_of, make, results, training_of,
}
use mod_sec_intl_wace_lib.PluginManager.Loading.Models.{
  after_start, equip_model, equip_started, is_set, train_new, uses_nats,
}
use mod_sec_intl_wace_lib.PluginManager.Loading.Ledger.{IsSound, here}
use mod_sec_intl_wace_lib.PluginManager.Loading.LedgerLaws.{
  give_back-instance_of-IsSound, here-handler_of, make-training_of-IsSound,
}
use mod_sec_intl_wace_lib.PluginManager.Loading.HandlersLaws.{
  StartsBoth, held, model_uses, start_handlers-StartsBoth,
}
use mod_sec_intl_wace_lib.PluginManager.Loading.AdaptLaws.{
  IsHeld, held_unset, model_uses-training, model_uses_own, started-Adapts,
}

-- What the model plugins hold together.
abbrev pub models_use : Resource → Map ModelPluginData → ℕ
models_use r = sum_of (model_uses r)

pub here_instance : (role : Role) (i n j : ℕ) → here (handler_of role i n) (instance_of j) ≡ 0
unfolding here
here_instance role i n j = refl

held-handler_of :
    (role role' : Role) (i j n : ℕ) (o : Option ℕ)
    → here (instance_of i) (instance_of j) ≡ 0
    → held (handler_of role i n) (handler_of role' j) o ≡ 0
unfolding held
held-handler_of role role' i j n none h = refl
held-handler_of role role' i j n (some k) h = omega (arith, here-handler_of role role' i j n k)

pub held-training_of :
    (role : Role) (i n : ℕ) (o : Option ℕ) → held (handler_of role i n) training_of o ≡ 0
unfolding held here
held-training_of role i n none = refl
held-training_of role i n (some t) = refl

model_uses-handler_of :
    (role : Role) (i n : ℕ) (mp : ModelPluginData)
    → model_uses (instance_of i) mp ≡ 0
    → model_uses (handler_of role i n) mp ≡ 0
unfolding model_uses
model_uses-handler_of role i n mp h =
    let away : here (instance_of i) (instance_of mp.model_plugin) ≡ 0 = omega arith in
    omega (
      arith,
      here_instance role i n mp.model_plugin,
      held-training_of role i n mp.training,
      held-handler_of role inputs i mp.model_plugin n mp.process_handler away,
      held-handler_of role results i mp.model_plugin n mp.results_handler away,
    )

-- No handler is held for an instance that nobody holds.
pub models_use-handler_of :
    (role : Role) (i n : ℕ) (plugins : Map ModelPluginData)
    → models_use (instance_of i) plugins ≡ 0
    → models_use (handler_of role i n) plugins ≡ 0
models_use-handler_of role i n plugins =
    sum_of_zero (model_uses (handler_of role i n)) (model_uses (instance_of i)) plugins
      (model_uses-handler_of role i n)

-- A plugin that is equipped is held; one that could not be has left nothing.
abbrev pub Equips : (Resource → ℕ) → World × Option ModelPluginData → Type 0
Equips rest (w, none) = IsSound w rest
Equips rest (w, some mp) = IsHeld rest w mp

-- A plugin that holds its instance and nothing else.
pub record IsBare (mp : ModelPluginData) : Type 0 where
  pub idle : mp.training ≡ none
  pub no_inputs : mp.process_handler ≡ none
  pub no_results : mp.results_handler ≡ none

pub model_uses-IsBare :
    (r : Resource) (mp : ModelPluginData)
    → IsBare mp
    → model_uses r mp ≡ here r (instance_of mp.model_plugin)
unfolding model_uses is_set
model_uses-IsBare r mp b = omega (
  arith,
  held_unset r training_of mp.training (ap is_set b.idle),
  held_unset r (handler_of inputs mp.model_plugin) mp.process_handler (ap is_set b.no_inputs),
  held_unset r (handler_of results mp.model_plugin) mp.results_handler (ap is_set b.no_results),
)

module _ (env : Env) (workers : ℕ) (conf : ConfigStore) (rest : Resource → ℕ) where
  train_new-IsHeld :
      (id : String) (mp : ModelPluginData) (w : World)
      → mp.training ≡ none
      → IsHeld rest w mp
      → let (w', mp') = train_new env workers conf id mp w in IsHeld rest w' mp'
  unfolding train_new held make is_set
  train_new-IsHeld id mp w idle h =
      if-elim (λ (o : World × ModelPluginData). IsHeld rest o.0 o.1) (is_in_training conf id) _ _
        (λ e. record {
          sound = make-training_of-IsSound w _ _ h.sound (λ r. omega (
            arith,
            model_uses-training r mp (some w.next),
            held_unset r training_of mp.training (ap is_set idle),
          ));
          paired = h.paired;
        })
        (λ _. h)

  equip_started-Equips :
      (id : String) (mp : ModelPluginData) (o : World × Result ModelPluginData)
      → IsBare mp
      → ((role : Role) (n : ℕ) → rest (handler_of role mp.model_plugin n) ≡ 0)
      → StartsBoth mp (λ r. model_uses r mp + rest r) o
      → Equips rest (equip_started env workers conf id mp o)
  unfolding equip_started is_set after_start
  equip_started-Equips id mp (w, err e) bare quiet s =
      give_back-instance_of-IsSound w _ rest s mp.model_plugin
        (λ role n. omega (
          arith,
          quiet role n,
          model_uses-IsBare (handler_of role mp.model_plugin n) mp bare,
          here_instance role mp.model_plugin n mp.model_plugin,
        ))
        (λ r. omega (arith, model_uses-IsBare r mp bare))
  equip_started-Equips id mp (w, ok mp') bare quiet (ph, rh, known, s) =
      let started =
        started-Adapts rest mp false (w, ok mp') (ap is_set bare.no_inputs)
          (ap is_set bare.no_inputs ∙ sym (ap is_set bare.no_results)) (ph, rh, known, s) in
      train_new-IsHeld id mp' w (ap (λ (m : ModelPluginData). m.training) known ∙ bare.idle)
        started.held_now

  pub equip_model-Equips :
      (id : String) (mp : ModelPluginData) (w : World)
      → IsBare mp
      → ((role : Role) (n : ℕ) → rest (handler_of role mp.model_plugin n) ≡ 0)
      → IsSound w (λ r. model_uses r mp + rest r)
      → Equips rest (equip_model env workers conf id mp w)
  unfolding equip_model equip_started
  equip_model-Equips id mp w bare quiet s =
      if-elim (Equips rest) (uses_nats conf id) _ _
        (λ _. equip_started-Equips id mp _ bare quiet (
          start_handlers-StartsBoth env workers (some conf) _ mp id w
            (omega (arith, model_uses_own mp)) s))
        (λ _. train_new-IsHeld id mp w bare.idle (record {
          sound = s;
          paired = ap is_set bare.no_inputs ∙ sym (ap is_set bare.no_results);
        }))
