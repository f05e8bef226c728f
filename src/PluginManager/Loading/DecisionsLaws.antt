-- ===== src/PluginManager/Loading/DecisionsLaws.antt =====
-- pluginmanager/pluginmanager.go, the ledger over loadDecisionPlugins.
use mod_sec_intl_wace_lib.Base.{
  Bool-cases, Distinct, Distinct-erase, Distinct-insert, List, Map, Option-cases, Result-cases,
  String, [], amount, ap, arith, erase, if-elim, inl, inr, insert, lookup, none, not, refl, some,
  sum_of-erase, sum_of-insert, ℕ, ◌&&◌, ◌+◌, ◌-◌, ◌∷◌, ◌≡◌,
}
use mod_sec_intl_wace_lib.ConfigStore.Defs.{
  ConfigPointer, ConfigStore, DecisionPluginConfig, get, is_decision_in_training,
}
use mod_sec_intl_wace_lib.Training.Status.{decision_kind}
use mod_sec_intl_wace_lib.PluginManager.Process.{DecisionPluginData}
use mod_sec_intl_wace_lib.PluginManager.Loading.World.{
  Env, Resource, Role, World, emit, handler_of, instance_of, make, open_plugin, reloaded,
  start_training, training_of,
}
use mod_sec_intl_wace_lib.PluginManager.Loading.Models.{is_set, values}
use mod_sec_intl_wace_lib.PluginManager.Loading.Decisions.{
  Decisions, adapt_decision, is_configured_decision, load_decision, load_decision_plugins,
  load_decisions_loop, reload_decision, unload_decision, unload_decisions_loop,
}
use mod_sec_intl_wace_lib.PluginManager.Loading.Ledger.{IsSound, here}
use mod_sec_intl_wace_lib.PluginManager.Loading.LedgerLaws.{
  IsSound-eq, give_back-instance_of-IsSound, make-instance_of-IsSound, make-training_of-IsSound,
  reloaded-IsSound,
}
use mod_sec_intl_wace_lib.PluginManager.Loading.HandlersLaws.{give_back?-training_of-IsSound, held}
use mod_sec_intl_wace_lib.PluginManager.Loading.EquipLaws.{here_instance}
use mod_sec_intl_wace_lib.PluginManager.Loading.AdaptLaws.{held_unset}
use mod_sec_intl_wace_lib.PluginManager.Loading.LoadLaws.{AllFound, AllFound-erase, AllFound-self}
use mod_sec_intl_wace_lib.PluginManager.Loading.DecisionsHeld.{
  decision_uses, decision_uses_own, decisions_use, decisions_use-ge, decisions_use-handler_of,
}

-- The loaded plugins hold what is open, beside the others.
pub record AreKept (others : Resource → ℕ) (s : Decisions) : Type 0 where
  pub sound : IsSound s.world (λ r. decisions_use r s.plugins + others r)
  pub distinct : Distinct s.plugins

module _ (others : Resource → ℕ)
    (quiet : (role : Role) (i n : ℕ)
      → others (instance_of i) ≡ 0
      → others (handler_of role i n) ≡ 0) where
  entered-AreKept :
      (s : Decisions) (w : World) (id : String) (dp : DecisionPluginData)
      → AreKept others s
      → IsSound w (λ r.
        decisions_use r s.plugins
        + decision_uses r dp
        + others r
        - amount (decision_uses r) (lookup id s.plugins))
      → AreKept others (record { world = w; plugins = insert id dp s.plugins })
  entered-AreKept s w id dp k sound = record {
    sound =
        IsSound-eq w _ _ sound
          (λ r. omega (arith, sum_of-insert (decision_uses r) id dp s.plugins));
    distinct = Distinct-insert id dp s.plugins k.distinct;
  }

  module _ (env : Env) (conf : ConfigStore) where
    load_decision-AreKept :
        (d : DecisionPluginConfig) (s : Decisions)
        → AreKept others s
        → lookup d.id s.plugins ≡ none
        → AreKept others (load_decision env conf d s)
    unfolding load_decision make start_training decision_uses held amount
    load_decision-AreKept d s k new =
        let i = s.world.next in
        let made =
          make-instance_of-IsSound s.world _
            (λ r. here r (instance_of i) + (decisions_use r s.plugins + others r)) k.sound
            (λ r. refl) in
        elim (Result-cases (open_plugin env decision_kind d.id d.path d.params)) [
          | inl (e, refused) ↦ rw (refused, load_decision) k
          | inr (_, opened) ↦
              rw (opened, load_decision)
                (if-elim (AreKept others) (is_decision_in_training conf d.id) _ _
                  (λ _. entered-AreKept s _ d.id _ k (
                    make-training_of-IsSound _ _ _ made
                      (λ r. omega (arith, ap (amount (decision_uses r)) new))))
                  (λ _. entered-AreKept s _ d.id _ k (
                    IsSound-eq _ _ _ made (λ r. omega (arith, ap (amount (decision_uses r)) new)))))
        ]

    adapt_decision-AreKept :
        (id : String) (dp : DecisionPluginData) (s : Decisions)
        → AreKept others s
        → lookup id s.plugins ≡ some dp
        → AreKept others (adapt_decision env conf id dp s)
    unfolding adapt_decision make start_training decision_uses held amount
    adapt_decision-AreKept id dp s k found =
        if-elim (AreKept others) (not (is_decision_in_training conf id) && is_set dp.training) _ _
          (λ e. entered-AreKept s _ id _ k (
            give_back?-training_of-IsSound s.world _ _ dp.training k.sound (λ r. omega (
              arith,
              decisions_use-ge r id dp s.plugins found,
              ap (amount (decision_uses r)) found,
            ))))
          (λ _.
            if-elim (AreKept others) (is_decision_in_training conf id && not (is_set dp.training)) _
              _
              (λ e. entered-AreKept s _ id _ k (
                make-training_of-IsSound s.world _ _ k.sound (λ r. omega (
                  arith,
                  decisions_use-ge r id dp s.plugins found,
                  ap (amount (decision_uses r)) found,
                  held_unset r training_of dp.training (ground arith),
                ))))
              (λ _. k))

    reload_decision-AreKept :
        (d : DecisionPluginConfig) (dp : DecisionPluginData) (s : Decisions)
        → AreKept others s
        → lookup d.id s.plugins ≡ some dp
        → AreKept others (reload_decision env conf d dp s)
    unfolding reload_decision
    reload_decision-AreKept d dp s k found =
        let called : AreKept others
            (record s { world = emit (reloaded dp.decision_plugin) s.world }) =
          record {
            sound =
                reloaded-IsSound s.world _ _ k.sound dp.decision_plugin
                  (omega (
                    arith,
                    decision_uses_own dp,
                    decisions_use-ge (instance_of dp.decision_plugin) d.id dp s.plugins found,
                  ))
                  (λ r. refl);
            distinct = k.distinct;
          } in
        elim (Option-cases (env.reload decision_kind d.id dp.decision_plugin d.params)) [
          | inr (e, refused) ↦ rw (refused, reload_decision) called
          | inl taken ↦ rw (taken, reload_decision) (adapt_decision-AreKept d.id dp _ called found)
        ]

  unload_decision-AreKept :
      (id : String) (dp : DecisionPluginData) (s : Decisions)
      → AreKept others s
      → lookup id s.plugins ≡ some dp
      → AreKept others (unload_decision id dp s)
  unfolding unload_decision amount decision_uses
  unload_decision-AreKept id dp s k found =
      let i = dp.decision_plugin in
      let after : Resource → ℕ = λ r. decisions_use r (erase id s.plugins) + others r in
      let untrained =
        give_back?-training_of-IsSound s.world _ (λ r. here r (instance_of i) + after r) dp.training
          k.sound
          (λ r. omega (
            arith,
            ap (amount (decision_uses r)) found,
            sum_of-erase (decision_uses r) id s.plugins k.distinct,
          )) in
      let unheld : others (instance_of i) ≡ 0 = omega (
        arith,
        k.sound.balance (instance_of i),
        k.sound.single i,
        decision_uses_own dp,
        decisions_use-ge (instance_of i) id dp s.plugins found,
      ) in
      record {
        sound =
            give_back-instance_of-IsSound _ _ after untrained i
              (λ role n. omega (
                arith,
                here_instance role i n i,
                quiet role i n unheld,
                decisions_use-handler_of role i n (erase id s.plugins),
              ))
              (λ r. refl);
        distinct = Distinct-erase id s.plugins k.distinct;
      }

  load_decisions_loop-AreKept :
      (env : Env) (conf : ConfigStore) (ds : List DecisionPluginConfig) (s : Decisions)
      → AreKept others s
      → AreKept others (load_decisions_loop env conf ds s)
  unfolding load_decisions_loop
  load_decisions_loop-AreKept env conf [] s k = k
  load_decisions_loop-AreKept env conf (d ∷ ds) s k = elim (Option-cases (lookup d.id s.plugins)) [
    | inl e ↦
        rw (e, load_decisions_loop)
          (load_decisions_loop-AreKept env conf ds _ (load_decision-AreKept env conf d s k e))
    | inr (dp, e) ↦
        rw (e, load_decisions_loop)
          (load_decisions_loop-AreKept env conf ds _ (reload_decision-AreKept env conf d dp s k e))
  ]

  unload_decisions_loop-AreKept :
      (conf : ConfigStore) (rest : Map DecisionPluginData) (s : Decisions)
      → AreKept others s
      → Distinct rest
      → AllFound s.plugins rest
      → AreKept others (unload_decisions_loop conf rest s)
  unfolding unload_decisions_loop
  unload_decisions_loop-AreKept conf [] s k d f = k
  unload_decisions_loop-AreKept conf ((id, dp) ∷ rest) s k (new, d) (found, f) =
      elim (Bool-cases (is_configured_decision conf id)) [
        | inl c ↦ rw (c, unload_decisions_loop) (unload_decisions_loop-AreKept conf rest s k d f)
        | inr c ↦
            rw (c, unload_decisions_loop)
              (unload_decisions_loop-AreKept conf rest (unload_decision id dp s)
                (unload_decision-AreKept id dp s k found) d
                (AllFound-erase id s.plugins rest new f))
      ]

  -- `loadDecisionPlugins` keeps the ledger.
  pub load_decision_plugins-AreKept :
      (env : Env) (config : ConfigPointer) (s : Decisions)
      → AreKept others s
      → AreKept others (load_decision_plugins env config s).0
  unfolding load_decision_plugins get
  load_decision_plugins-AreKept env none s k = k
  load_decision_plugins-AreKept env (some conf) s k =
      let k' = load_decisions_loop-AreKept env conf (values conf.decision_plugins) s k in
      unload_decisions_loop-AreKept conf _ _ k' k'.distinct (AllFound-self _ k'.distinct)
