-- ===== src/PluginManager/Loading/DecisionsRound.antt =====
-- pluginmanager/pluginmanager.go, loadDecisionPlugins: one round of its first loop.
use mod_sec_intl_wace_lib.Base.{
  =ₛ_iff, Bool-cases, Map, Option, Option-cases, Result-cases, String, ap, arith, false, if-elim,
  inl, inr, insert, lookup, lookup-insert, none, refl, some, some-injective, subst, sym, ◌=ₛ◌, ◌∙◌,
  ◌≡◌,
}
use mod_sec_intl_wace_lib.ConfigStore.Defs.{
  ConfigStore, DecisionPluginConfig, is_decision_in_training,
}
use mod_sec_intl_wace_lib.Training.Status.{decision_kind}
use mod_sec_intl_wace_lib.PluginManager.Process.{DecisionPluginData, Handle}
use mod_sec_intl_wace_lib.PluginManager.Loading.World.{
  Env, emit, open_plugin, reloaded, start_training,
}
use mod_sec_intl_wace_lib.PluginManager.Loading.Models.{is_set}
use mod_sec_intl_wace_lib.PluginManager.Loading.Decisions.{
  Decisions, adapt_decision, load_decision, reload_decision,
}

-- A loaded decision plugin is in training exactly when the configuration wants it.
abbrev pub DecisionFollows : ConfigStore → DecisionPluginConfig → DecisionPluginData → Type 0
DecisionFollows conf d dp = is_set dp.training ≡ is_decision_in_training conf d.id

-- The instance of a loaded decision plugin.
unfoldable pub decision_instance_at : String → Decisions → Option Handle
decision_instance_at id s = elim (lookup id s.plugins) [
  | none ↦ none
  | some dp ↦ some dp.decision_plugin
]

-- A plugin that is still there, with its instance.
abbrev pub Lasts : String → DecisionPluginData → Decisions → Type 0
Lasts id dp s =
    (dp' : DecisionPluginData) × (lookup id s.plugins ≡ some dp')
    × (dp'.decision_plugin ≡ dp.decision_plugin)

-- What has just been entered is what is found.
inserted :
    (id : String) (dp dp' : DecisionPluginData) (plugins : Map DecisionPluginData)
    → lookup id (insert id dp plugins) ≡ some dp'
    → is_set dp'.training ≡ is_set dp.training
inserted id dp dp' plugins found =
    let same : dp ≡ dp' =
      some-injective dp dp' (ground (arith, found, lookup-insert id id dp plugins, =ₛ_iff id id)) in
    ap (λ (x : DecisionPluginData). is_set x.training) (sym same)

module _ (env : Env) (conf : ConfigStore) where
  -- One round of the first loop.
  unfoldable pub decision_round : DecisionPluginConfig → Decisions → Decisions
  unfolding load_decision reload_decision
  decision_round d s = elim (lookup d.id s.plugins) [
    | none ↦ load_decision env conf d s
    | some dp ↦ reload_decision env conf d dp s
  ]

  adapt_decision-lookup :
      (key : String) (dp : DecisionPluginData) (s : Decisions) (id : String)
      → (key =ₛ id) ≡ false
      → lookup id (adapt_decision env conf key dp s).plugins ≡ lookup id s.plugins
  unfolding adapt_decision
  adapt_decision-lookup key dp s id other = ground (
    arith,
    other,
    lookup-insert key id (record dp { training = none }) s.plugins,
    lookup-insert key id (record dp { training = some (start_training s.world).1 }) s.plugins,
  )

  adapt_decision-found :
      (d : DecisionPluginConfig) (dp : DecisionPluginData) (s : Decisions)
      → lookup d.id s.plugins ≡ some dp
      → (dp' : DecisionPluginData) × (lookup d.id (adapt_decision env conf d.id dp s).plugins
          ≡ some dp')
        × (dp'.decision_plugin ≡ dp.decision_plugin)
        × DecisionFollows conf d dp'
  unfolding adapt_decision is_set
  adapt_decision-found d dp s found =
      let entered : (dp' : DecisionPluginData)
          → lookup d.id (insert d.id dp' s.plugins) ≡ some dp' =
        λ dp'. ground (arith, lookup-insert d.id d.id dp' s.plugins, =ₛ_iff d.id d.id) in
      elim (Bool-cases (is_decision_in_training conf d.id)) [
        | inl wanted ↦ elim (Option-cases dp.training) [
          | inl idle ↦ rw (wanted, idle, adapt_decision) (_, entered _, refl, refl)
          | inr (t, trained) ↦
              rw (wanted, trained, adapt_decision) (dp, found, refl, rw trained refl)
        ]
        | inr unwanted ↦ elim (Option-cases dp.training) [
          | inl idle ↦ rw (unwanted, idle, adapt_decision) (dp, found, refl, rw idle refl)
          | inr (t, trained) ↦ rw (unwanted, trained, adapt_decision) (_, entered _, refl, refl)
        ]
      ]

  load_decision-lookup :
      (d : DecisionPluginConfig) (s : Decisions) (id : String)
      → (d.id =ₛ id) ≡ false
      → lookup id (load_decision env conf d s).plugins ≡ lookup id s.plugins
  unfolding load_decision
  load_decision-lookup d s id other =
      elim (Result-cases (open_plugin env decision_kind d.id d.path d.params)) [
        | inl (e, refused) ↦ rw (refused, load_decision) refl
        | inr (_, opened) ↦
            rw (opened, load_decision)
              (if-elim (λ (t : Decisions). lookup id t.plugins ≡ lookup id s.plugins)
                (is_decision_in_training conf d.id) _ _
                (λ _. lookup-insert d.id id _ s.plugins ∙ rw other refl)
                (λ _. lookup-insert d.id id _ s.plugins ∙ rw other refl))
      ]

  -- A round changes no other plugin.
  pub decision_round-lookup :
      (d : DecisionPluginConfig) (s : Decisions) (id : String)
      → (d.id =ₛ id) ≡ false
      → lookup id (decision_round d s).plugins ≡ lookup id s.plugins
  unfolding decision_round reload_decision
  decision_round-lookup d s id other = elim (Option-cases (lookup d.id s.plugins)) [
    | inl new ↦ rw (new, decision_round) (load_decision-lookup d s id other)
    | inr (dp, there) ↦
        rw (there, decision_round)
          (elim (Option-cases (env.reload decision_kind d.id dp.decision_plugin d.params)) [
            | inr (e, refused) ↦ rw (refused, reload_decision) refl
            | inl taken ↦ rw (taken, reload_decision) (adapt_decision-lookup d.id dp _ id other)
          ])
  ]

  -- No plugin refuses its new configuration.
  abbrev pub AreTaken : Type 0
  AreTaken =
      (d : DecisionPluginConfig) (i : Handle) → env.reload decision_kind d.id i d.params ≡ none

  load_decision-found :
      (d : DecisionPluginConfig) (s : Decisions) (dp : DecisionPluginData)
      → lookup d.id s.plugins ≡ none
      → lookup d.id (load_decision env conf d s).plugins ≡ some dp
      → DecisionFollows conf d dp
  unfolding load_decision is_set
  load_decision-found d s dp new =
      elim (Result-cases (open_plugin env decision_kind d.id d.path d.params)) [
        | inl (e, refused) ↦ rw (refused, load_decision) (λ found. ground (arith, new, found))
        | inr (_, opened) ↦
            rw (opened, load_decision)
              (elim (Bool-cases (is_decision_in_training conf d.id)) [
                | inl wanted ↦
                    rw (wanted, load_decision) (λ found. inserted d.id _ dp s.plugins found)
                | inr unwanted ↦
                    rw (unwanted, load_decision) (λ found. inserted d.id _ dp s.plugins found)
              ])
      ]

  -- A loaded plugin keeps its instance through a round.
  pub decision_round-Lasts :
      (d : DecisionPluginConfig) (s : Decisions) (id : String) (dp : DecisionPluginData)
      → lookup id s.plugins ≡ some dp
      → Lasts id dp (decision_round d s)
  unfolding decision_round reload_decision
  decision_round-Lasts d s id dp found = elim (Bool-cases (d.id =ₛ id)) [
    | inr h ↦ (dp, decision_round-lookup d s id h ∙ found, refl)
    | inl h ↦
        let here : lookup d.id s.plugins ≡ some dp = ground (arith, (=ₛ_iff d.id id).0 h, found) in
        subst (λ j. Lasts j dp (decision_round d s)) ((=ₛ_iff d.id id).0 h)
          (rw (here, decision_round)
            (elim (Option-cases (env.reload decision_kind d.id dp.decision_plugin d.params)) [
              | inr (e, refused) ↦ rw (refused, reload_decision) (dp, here, refl)
              | inl taken ↦
                  let (dp', e, same, _) = adapt_decision-found d dp _ here in
                  rw (taken, reload_decision) (dp', e, same)
            ]))
  ]

  pub decision_round-Follows :
      (d : DecisionPluginConfig) (s : Decisions) (dp : DecisionPluginData)
      → AreTaken
      → lookup d.id (decision_round d s).plugins ≡ some dp
      → DecisionFollows conf d dp
  unfolding decision_round reload_decision
  decision_round-Follows d s dp taken = elim (Option-cases (lookup d.id s.plugins)) [
    | inl new ↦ rw (new, decision_round) (load_decision-found d s dp new)
    | inr (dp0, here) ↦
        rw (here, decision_round)
          (rw (taken d dp0.decision_plugin, reload_decision)
            (λ found.
              let s' = record s { world = emit (reloaded dp0.decision_plugin) s.world } in
              let (dp', e, _, follows) = adapt_decision-found d dp0 s' here in
              subst (DecisionFollows conf d) (some-injective dp' dp (sym e ∙ found)) follows))
  ]
