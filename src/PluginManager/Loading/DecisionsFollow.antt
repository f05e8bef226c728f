-- ===== src/PluginManager/Loading/DecisionsFollow.antt =====
-- pluginmanager/pluginmanager.go, loadDecisionPlugins: what is loaded behind it against what is
-- configured.
use mod_sec_intl_wace_lib.Base.{
  =ₛ_iff, Bool-cases, List, Map, Option-cases, String, [], arith, false, if◌then◌else◌, inl, inr,
  lookup, lookup-erase, none, refl, some, some-injective, subst, sym, ◌=ₛ◌, ◌∙◌, ◌∷◌, ◌≡◌,
}
use mod_sec_intl_wace_lib.ConfigStore.Defs.{ConfigStore, DecisionPluginConfig, get}
use mod_sec_intl_wace_lib.PluginManager.Process.{DecisionPluginData, Handle}
use mod_sec_intl_wace_lib.PluginManager.Loading.World.{Env}
use mod_sec_intl_wace_lib.PluginManager.Loading.Models.{values}
use mod_sec_intl_wace_lib.PluginManager.Loading.Decisions.{
  Decisions, is_configured_decision, load_decision_plugins, load_decisions_loop, unload_decision,
  unload_decisions_loop,
}
use mod_sec_intl_wace_lib.PluginManager.Loading.Keyed.{AreKeyed, AreKeyed-rest}
use mod_sec_intl_wace_lib.PluginManager.Loading.DecisionsRound.{
  AreTaken, DecisionFollows, Lasts, decision_instance_at, decision_round, decision_round-Follows,
  decision_round-Lasts, decision_round-lookup,
}

module _ (env : Env) (conf : ConfigStore) where
  decisions_loop-Lasts :
      (ds : List DecisionPluginConfig) (s : Decisions) (id : String) (dp : DecisionPluginData)
      → lookup id s.plugins ≡ some dp
      → Lasts id dp (load_decisions_loop env conf ds s)
  unfolding load_decisions_loop decision_round
  decisions_loop-Lasts [] s id dp found = (dp, found, refl)
  decisions_loop-Lasts (d ∷ ds) s id dp found =
      let (dp1, e1, same1) = decision_round-Lasts env conf d s id dp found in
      let (dp2, e2, same2) = decisions_loop-Lasts ds (decision_round env conf d s) id dp1 e1 in
      (dp2, e2, same2 ∙ same1)

  decisions_loop-lookup :
      (plugins : Map DecisionPluginConfig) (s : Decisions) (id : String)
      → AreKeyed plugins
      → lookup id plugins ≡ none
      → lookup id (load_decisions_loop env conf (values plugins) s).plugins ≡ lookup id s.plugins
  unfolding load_decisions_loop values lookup decision_round
  decisions_loop-lookup [] s id k new = refl
  decisions_loop-lookup ((j, d) ∷ plugins) s id k new =
      let (same_id, k') = AreKeyed-rest j d plugins k in
      let other : (d.id =ₛ id) ≡ false = rw same_id (ground (arith, new)) in
      decisions_loop-lookup plugins (decision_round env conf d s) id k' (ground (arith, new))
      ∙ decision_round-lookup env conf d s id other

  decisions_loop-Follows :
      (plugins : Map DecisionPluginConfig) (s : Decisions) (id : String) (d : DecisionPluginConfig)
      (dp : DecisionPluginData)
      → AreTaken env conf
      → AreKeyed plugins
      → lookup id plugins ≡ some d
      → lookup id (load_decisions_loop env conf (values plugins) s).plugins ≡ some dp
      → DecisionFollows conf d dp
  unfolding load_decisions_loop values lookup decision_round
  decisions_loop-Follows [] s id d dp taken k e found = cc
  decisions_loop-Follows ((j, d') ∷ plugins) s id d dp taken k e found =
      let (same_id, k') = AreKeyed-rest j d' plugins k in
      elim (Bool-cases (j =ₛ id)) [
        | inl h ↦
            let same = same_id ∙ (=ₛ_iff j id).0 h in
            let last : lookup id plugins ≡ none = ground (arith, k.0.0, same, same_id) in
            subst (λ c. DecisionFollows conf c dp) (some-injective d' d (ground (arith, h, e)))
              (decision_round-Follows env conf d' s dp taken (
                subst (λ i. lookup i (decision_round env conf d' s).plugins ≡ some dp) (sym same)
                  (sym (decisions_loop-lookup plugins (decision_round env conf d' s) id k' last)
                    ∙ found)))
        | inr h ↦
            decisions_loop-Follows plugins (decision_round env conf d' s) id d dp taken k'
              (ground (arith, e)) found
      ]

unload_decisions_loop-lookup :
    (conf : ConfigStore) (rest : Map DecisionPluginData) (s : Decisions) (id : String)
    → lookup id (unload_decisions_loop conf rest s).plugins ≡ (
        if is_configured_decision conf id
        then lookup id s.plugins
        else elim (lookup id rest) [ none ↦ lookup id s.plugins | some dp ↦ none ])
unfolding unload_decisions_loop unload_decision lookup
unload_decisions_loop-lookup conf [] s id = ground arith
unload_decisions_loop-lookup conf ((j, dp) ∷ rest) s id = ground (
  arith,
  =ₛ_iff j id,
  lookup-erase j id s.plugins,
  unload_decisions_loop-lookup conf rest s id,
  unload_decisions_loop-lookup conf rest (unload_decision j dp s) id,
)

module _ (env : Env) (conf : ConfigStore) (s : Decisions) where
  abbrev decisions_behind_loop : Decisions
  decisions_behind_loop = load_decisions_loop env conf (values conf.decision_plugins) s

  pub load_decision_plugins-lookup :
      (id : String)
      → lookup id (load_decision_plugins env (some conf) s).0.plugins
        ≡ (if is_configured_decision conf id then lookup id decisions_behind_loop.plugins else none)
  unfolding load_decision_plugins get
  load_decision_plugins-lookup id = ground (
    arith,
    unload_decisions_loop-lookup conf decisions_behind_loop.plugins decisions_behind_loop id,
  )

  pub load_decision_plugins-stays :
      (id : String) (i : Handle)
      → decision_instance_at id s ≡ some i
      → decision_instance_at id (load_decision_plugins env (some conf) s).0
        ≡ (if is_configured_decision conf id then some i else none)
  unfolding decision_instance_at
  load_decision_plugins-stays id i = elim (Option-cases (lookup id s.plugins)) [
    | inl e ↦ rw (e, decision_instance_at) (λ c. ground (arith, c))
    | inr (dp, e) ↦
        rw (e, decision_instance_at)
          (λ same.
            let (dp', e', same') =
              decisions_loop-Lasts env conf (values conf.decision_plugins) s id dp e in
            ground (arith, e', same, same', load_decision_plugins-lookup id))
  ]

  pub load_decision_plugins-follow :
      (id : String) (dp : DecisionPluginData)
      → AreKeyed conf.decision_plugins
      → AreTaken env conf
      → lookup id (load_decision_plugins env (some conf) s).0.plugins ≡ some dp
      → (d : DecisionPluginConfig) × (lookup id conf.decision_plugins ≡ some d)
        × DecisionFollows conf d dp
  unfolding is_configured_decision
  load_decision_plugins-follow id dp k taken found =
      elim (Option-cases (lookup id conf.decision_plugins)) [
        | inl e ↦ ground (arith, e, load_decision_plugins-lookup id, found)
        | inr (d, e) ↦ (
          d,
          e,
          decisions_loop-Follows env conf conf.decision_plugins s id d dp taken k e
              (ground (arith, e, load_decision_plugins-lookup id, found)),
        )
      ]
