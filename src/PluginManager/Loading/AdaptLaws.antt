-- ===== src/PluginManager/Loading/AdaptLaws.antt =====
-- pluginmanager/pluginmanager.go, the ledger over a model plugin that is equipped or adapted.
use mod_sec_intl_wace_lib.Base.{
  Bool, Option, Result, String, ap, arith, eqb_int, err, false, if-elim, none, not, ok, refl, some,
  subst, sym, ℕ, ◌&&◌, ◌+◌, ◌<◌, ◌∙◌, ◌≡◌,
}
use mod_sec_intl_wace_lib.ConfigStore.Defs.{ConfigStore, ModelPluginConfig, is_in_training}
use mod_sec_intl_wace_lib.PluginManager.Process.{ModelPluginData}
use mod_sec_intl_wace_lib.PluginManager.Loading.World.{
  Env, Resource, World, handler_of, inputs, instance_of, make, results, training_of,
}
use mod_sec_intl_wace_lib.PluginManager.Loading.Models.{
  adapt_model, after_start, is_set, reload_handlers, reload_training, uses_nats,
}
use mod_sec_intl_wace_lib.PluginManager.Loading.Ledger.{IsSound, here}
use mod_sec_intl_wace_lib.PluginManager.Loading.LedgerLaws.{
  IsSound-eq, here_self, make-training_of-IsSound,
}
use mod_sec_intl_wace_lib.PluginManager.Loading.HandlersLaws.{
  StartsBoth, give_back?-training_of-IsSound, held, model_uses, start_handlers-StartsBoth,
  stop_handlers-IsSound,
}

-- A plugin has both handlers or none.
abbrev pub IsPaired : ModelPluginData → Type 0
IsPaired mp = is_set mp.process_handler ≡ is_set mp.results_handler

-- A plugin that is held beside the rest.
pub record IsHeld (rest : Resource → ℕ) (w : World) (mp : ModelPluginData) : Type 0 where
  pub sound : IsSound w (λ r. model_uses r mp + rest r)
  pub paired : IsPaired mp

pub model_uses_own : (mp : ModelPluginData) → 0 < model_uses (instance_of mp.model_plugin) mp
unfolding model_uses
model_uses_own mp = omega (arith, here_self (instance_of mp.model_plugin))

-- What a change leaves: the plugin is held as it is now, and where no change was seen it holds what it
-- held.
pub record Adapts (rest : Resource → ℕ) (mp : ModelPluginData) (changed : Bool)
    (o : World × ModelPluginData × Bool) : Type 0 where
  pub held_now : IsHeld rest o.0 o.1
  pub same_instance : o.1.model_plugin ≡ mp.model_plugin
  pub unseen :
      o.2 ≡ false → (changed ≡ false) × ((r : Resource) → model_uses r o.1 ≡ model_uses r mp)

pub held_unset :
    (r : Resource) (x : ℕ → Resource) (o : Option ℕ) → is_set o ≡ false → held r x o ≡ 0
unfolding is_set held
held_unset r x none h = refl
held_unset r x (some n) h = cc

model_uses-bare :
    (r : Resource) (mp : ModelPluginData) (ph rh : ℕ)
    → is_set mp.process_handler ≡ false
    → IsPaired mp
    → model_uses r (record mp { process_handler = some ph; results_handler = some rh })
      ≡ here r (handler_of inputs mp.model_plugin ph)
        + here r (handler_of results mp.model_plugin rh)
        + model_uses r mp
unfolding model_uses held
model_uses-bare r mp ph rh bare paired = omega (
  arith,
  held_unset r (handler_of inputs mp.model_plugin) mp.process_handler bare,
  held_unset r (handler_of results mp.model_plugin) mp.results_handler (sym paired ∙ bare),
)

pub model_uses-training :
    (r : Resource) (mp : ModelPluginData) (o : Option ℕ)
    → model_uses r (record mp { training = o }) + held r training_of mp.training
      ≡ held r training_of o + model_uses r mp
unfolding model_uses
model_uses-training r mp o = omega arith

pub started-Adapts :
    (rest : Resource → ℕ) (mp : ModelPluginData) (changed : Bool)
    (o : World × Result ModelPluginData)
    → is_set mp.process_handler ≡ false
    → IsPaired mp
    → StartsBoth mp (λ r. model_uses r mp + rest r) o
    → Adapts rest mp changed (after_start mp o)
unfolding after_start is_set
started-Adapts rest mp changed (w, err e) bare paired s = record {
  held_now = record { sound = s; paired = paired };
  same_instance = refl;
  unseen = λ c. cc;
}
started-Adapts rest mp changed (w, ok mp') bare paired (ph, rh, known, s) = record {
  held_now = record {
    sound =
        IsSound-eq w _ _ s
          (λ r. omega (arith, ap (model_uses r) known, model_uses-bare r mp ph rh bare paired));
    paired = subst IsPaired (sym known) refl;
  };
  same_instance = ap (λ (m : ModelPluginData). m.model_plugin) known;
  unseen = λ c. cc;
}

unchanged-Adapts :
    (rest : Resource → ℕ) (mp : ModelPluginData) (changed : Bool) (w : World)
    → IsHeld rest w mp
    → Adapts rest mp changed (w, mp, changed)
unchanged-Adapts rest mp changed w h = record {
  held_now = h;
  same_instance = refl;
  unseen = λ c. (c, λ r. refl);
}

module _ (env : Env) (workers : ℕ) (conf : ConfigStore) (rest : Resource → ℕ) where
  reload_handlers-Adapts :
      (id : String) (mp : ModelPluginData) (changed : Bool) (w : World)
      → IsHeld rest w mp
      → Adapts rest mp changed (reload_handlers env workers conf id mp changed w)
  unfolding reload_handlers
  reload_handlers-Adapts id mp changed w h =
      let P = Adapts rest mp changed in
      if-elim P (uses_nats conf id && not (is_set mp.process_handler)) _ _
        (λ e. started-Adapts rest mp changed _ (ground arith) h.paired (
          start_handlers-StartsBoth env workers (some conf) (λ r. model_uses r mp + rest r) mp id w
            (omega (arith, model_uses_own mp)) h.sound))
        (λ _.
          if-elim P (not (uses_nats conf id) && is_set mp.process_handler) _ _
            (λ e. record {
              held_now = record {
                sound = stop_handlers-IsSound mp w _ _ h.sound (λ r. omega arith);
                paired = refl;
              };
              same_instance = refl;
              unseen = λ c. cc;
            })
            (λ _. unchanged-Adapts rest mp changed w h))

  reload_training-Adapts :
      (id : String) (mp : ModelPluginData) (changed : Bool) (w : World)
      → IsHeld rest w mp
      → Adapts rest mp changed (reload_training env workers conf id mp changed w)
  unfolding reload_training held make
  reload_training-Adapts id mp changed w h =
      let P = Adapts rest mp changed in
      if-elim P (not (is_in_training conf id) && is_set mp.training) _ _
        (λ e. record {
          held_now = record {
            sound =
                give_back?-training_of-IsSound w _ _ mp.training h.sound
                  (λ r. omega (arith, model_uses-training r mp none));
            paired = h.paired;
          };
          same_instance = refl;
          unseen = λ c. cc;
        })
        (λ _.
          if-elim P (is_in_training conf id && not (is_set mp.training)) _ _
            (λ e. record {
              held_now = record {
                sound = make-training_of-IsSound w _ _ h.sound (λ r. omega (
                  arith,
                  model_uses-training r mp (some w.next),
                  held_unset r training_of mp.training (ground arith),
                ));
                paired = h.paired;
              };
              same_instance = refl;
              unseen = λ c. cc;
            })
            (λ _. unchanged-Adapts rest mp changed w h))

  -- A plugin that has taken its new configuration is held as it is now.
  pub adapt_model-Adapts :
      (m : ModelPluginConfig) (mp : ModelPluginData) (w : World)
      → IsHeld rest w mp
      → Adapts rest mp
          (not (eqb_int mp.plugin_type m.plugin_type))
          (adapt_model env workers conf m mp w)
  unfolding adapt_model model_uses
  adapt_model-Adapts m mp w h =
      let changed = not (eqb_int mp.plugin_type m.plugin_type) in
      let typed : ModelPluginData = record mp { plugin_type = m.plugin_type } in
      let held_typed : IsHeld rest w typed = record { sound = h.sound; paired = h.paired } in
      let one = reload_handlers-Adapts m.id typed changed w held_typed in
      let two = reload_training-Adapts m.id _ _ _ one.held_now in
      record {
        held_now = two.held_now;
        same_instance = two.same_instance ∙ one.same_instance;
        unseen = λ c.
            let (c1, same_two) = two.unseen c in
            let (c0, same_one) = one.unseen c1 in (c0, λ r. same_two r ∙ same_one r);
      }
