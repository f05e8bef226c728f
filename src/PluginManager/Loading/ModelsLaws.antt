-- ===== src/PluginManager/Loading/ModelsLaws.antt =====
-- pluginmanager/pluginmanager.go, the ledger over loadModelPlugins.
use mod_sec_intl_wace_lib.Base.{
  Bool, Distinct, Distinct-insert, Map, Option, Option-cases, Result-cases, String, amount,
  amount-le-sum_of, ap, arith, if-elim, inl, inr, insert, lookup, lookup-insert, none, refl, some,
  sum_of-insert, ℕ, ◌+◌, ◌-◌, ◌≡◌, ◌≤◌,
}
use mod_sec_intl_wace_lib.ConfigStore.Defs.{ConfigStore, ModelPluginConfig}
use mod_sec_intl_wace_lib.Training.Status.{model_kind}
use mod_sec_intl_wace_lib.PluginManager.Process.{ModelPluginData}
use mod_sec_intl_wace_lib.PluginManager.Loading.World.{
  Env, Resource, Role, World, emit, handler_of, instance_of, make, open_plugin, reloaded,
}
use mod_sec_intl_wace_lib.PluginManager.Loading.Models.{
  Models, adapt_model, enter_model, load_model, new_model, reload_model,
}
use mod_sec_intl_wace_lib.PluginManager.Loading.Ledger.{IsSound}
use mod_sec_intl_wace_lib.PluginManager.Loading.LedgerLaws.{
  IsSound-eq, make-instance_of-IsSound, reloaded-IsSound,
}
use mod_sec_intl_wace_lib.PluginManager.Loading.HandlersLaws.{model_uses}
use mod_sec_intl_wace_lib.PluginManager.Loading.AdaptLaws.{
  IsPaired, adapt_model-Adapts, model_uses_own,
}
use mod_sec_intl_wace_lib.PluginManager.Loading.EquipLaws.{
  Equips, IsBare, equip_model-Equips, model_uses-IsBare, models_use, models_use-handler_of,
}

-- The loaded plugins hold what is open, beside the others.
pub record IsKept (others : Resource → ℕ) (s : Models) : Type 0 where
  pub sound : IsSound s.world (λ r. models_use r s.plugins + others r)
  pub distinct : Distinct s.plugins
  pub paired : (id : String) (mp : ModelPluginData) → lookup id s.plugins ≡ some mp → IsPaired mp

-- What all plugins but one hold, and the others.
abbrev pub rest_of : (Resource → ℕ) → Map ModelPluginData → ModelPluginData → Resource → ℕ
rest_of others plugins mp r = models_use r plugins - model_uses r mp + others r

pub models_use-ge :
    (r : Resource) (id : String) (mp : ModelPluginData) (plugins : Map ModelPluginData)
    → lookup id plugins ≡ some mp
    → model_uses r mp ≤ models_use r plugins
unfolding amount
models_use-ge r id mp plugins e =
    omega (arith, amount-le-sum_of (model_uses r) id plugins, ap (amount (model_uses r)) e)

module _ (others : Resource → ℕ)
    (quiet : (role : Role) (i n : ℕ) → others (handler_of role i n) ≡ 0) where
  -- A plugin is entered where its identifier held `old` before.
  entered-IsKept :
      (s : Models) (w : World) (id : String) (mp : ModelPluginData)
      → IsKept others s
      → IsSound w (λ r.
        models_use r s.plugins
        + model_uses r mp
        + others r
        - amount (model_uses r) (lookup id s.plugins))
      → IsPaired mp
      → IsKept others (record { world = w; plugins = insert id mp s.plugins })
  entered-IsKept s w id mp k sound paired = record {
    sound =
        IsSound-eq w _ _ sound (λ r. omega (arith, sum_of-insert (model_uses r) id mp s.plugins));
    distinct = Distinct-insert id mp s.plugins k.distinct;
    paired = λ j mp' e. ground (arith, lookup-insert id j mp s.plugins, k.paired j mp');
  }

  module _ (env : Env) (workers : ℕ) (conf : ConfigStore) where
    enter_model-IsKept :
        (s : Models) (id : String) (o : World × Option ModelPluginData)
        → IsKept others s
        → lookup id s.plugins ≡ none
        → Equips (λ r. models_use r s.plugins + others r) o
        → IsKept others (enter_model id s.plugins o)
    unfolding enter_model amount
    enter_model-IsKept s id (w, none) k new h = record {
      sound = h;
      distinct = k.distinct;
      paired = k.paired;
    }
    enter_model-IsKept s id (w, some mp) k new h =
        entered-IsKept s w id mp k
          (IsSound-eq w _ _ h.sound (λ r. omega (arith, ap (amount (model_uses r)) new))) h.paired

    pub load_model-IsKept :
        (m : ModelPluginConfig) (s : Models)
        → IsKept others s
        → lookup m.id s.plugins ≡ none
        → IsKept others (load_model env workers conf m s)
    unfolding load_model make
    load_model-IsKept m s k new =
        let rest : Resource → ℕ = λ r. models_use r s.plugins + others r in
        let mp : ModelPluginData = new_model m s.world.next in
        let bare : IsBare mp = record { idle = refl; no_inputs = refl; no_results = refl } in
        let unheld : models_use (instance_of s.world.next) s.plugins ≡ 0 = omega (
          arith,
          k.sound.balance (instance_of s.world.next),
          k.sound.fresh s.world.next (omega arith),
        ) in
        elim (Result-cases (open_plugin env model_kind m.id m.path m.params)) [
          | inl (e, refused) ↦ rw (refused, load_model) k
          | inr (_, opened) ↦
              rw (opened, load_model)
                (enter_model-IsKept s m.id _ k new (
                  equip_model-Equips env workers conf rest m.id mp (make instance_of s.world).0 bare
                    (λ role n. omega (
                      arith,
                      quiet role s.world.next n,
                      models_use-handler_of role s.world.next n s.plugins unheld,
                    ))
                    (make-instance_of-IsSound s.world rest _ k.sound
                      (λ r. omega (arith, model_uses-IsBare r mp bare)))))
        ]

    pub reload_model-IsKept :
        (m : ModelPluginConfig) (mp : ModelPluginData) (s : Models)
        → IsKept others s
        → lookup m.id s.plugins ≡ some mp
        → IsKept others (reload_model env workers conf m mp s)
    unfolding reload_model amount
    reload_model-IsKept m mp s k found =
        let rest : Resource → ℕ = rest_of others s.plugins mp in
        let called : IsSound (emit (reloaded mp.model_plugin) s.world)
            (λ r. model_uses r mp + rest r) =
          reloaded-IsSound s.world _ _ k.sound mp.model_plugin
            (omega (
              arith,
              model_uses_own mp,
              models_use-ge (instance_of mp.model_plugin) m.id mp s.plugins found,
            ))
            (λ r. omega (arith, models_use-ge r m.id mp s.plugins found)) in
        let changed : Bool =
          (adapt_model env workers conf m mp (emit (reloaded mp.model_plugin) s.world)).2 in
        let adapts =
          adapt_model-Adapts env workers conf rest m mp _
            (record { sound = called; paired = k.paired m.id mp found }) in
        elim (Option-cases (env.reload model_kind m.id mp.model_plugin m.params)) [
          | inr (e, refused) ↦
              rw (refused, reload_model)
                (record {
                  sound =
                      IsSound-eq _ _ _ called
                        (λ r. omega (arith, models_use-ge r m.id mp s.plugins found));
                  distinct = k.distinct;
                  paired = k.paired;
                })
          | inl taken ↦
              rw (taken, reload_model)
                (if-elim (IsKept others) changed _ _
                  (λ c.
                    entered-IsKept s _ m.id _ k
                      (IsSound-eq _ _ _ adapts.held_now.sound (λ r. omega (
                        arith,
                        models_use-ge r m.id mp s.plugins found,
                        ap (amount (model_uses r)) found,
                      )))
                      adapts.held_now.paired)
                  (λ c. record {
                    sound = IsSound-eq _ _ _ adapts.held_now.sound (λ r.
                        omega
                          (arith, models_use-ge r m.id mp s.plugins found, (adapts.unseen c).1 r));
                    distinct = k.distinct;
                    paired = k.paired;
                  }))
        ]
