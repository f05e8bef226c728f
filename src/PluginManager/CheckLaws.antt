-- ===== src/PluginManager/CheckLaws.antt =====
-- pluginmanager/pluginmanager.go, the verdict of CheckResult.
use mod_sec_intl_wace_lib.Base.{
  All, Bool, Bool-cases, Error, List, Map, Option, Result, String, [], arith, decision_not_found,
  err, false, if◌then◌else◌, inl, inr, lookup, multiple_enabled, none, ok, refl, some, true, ◌∙◌,
  ◌∷◌, ◌≡◌,
}
use mod_sec_intl_wace_lib.WaceApi.{DecisionResult, ModelResults, WafData}
use mod_sec_intl_wace_lib.ConfigStore.Defs.{ConfigStore}
use mod_sec_intl_wace_lib.PluginManager.Process.{DecisionPluginData, Plugins}
use mod_sec_intl_wace_lib.PluginManager.CheckResult.{
  Checked, check_loop, check_round, decide, decision_conf,
}

-- The three results without the goroutines.
abbrev pub verdict : Checked → Bool × Bool × Option Error
verdict r = (r.block, r.decided, r.error)

module _ (plugins : Plugins) (cs : ConfigStore) (loaded : Map DecisionPluginData) (tx_id : String)
    (results : Map ModelResults) (waf : WafData) where
  abbrev pub is_loaded : String → Bool
  is_loaded id = elim (lookup id loaded) [ none ↦ false | some dp ↦ true ]

  abbrev pub is_training : String → Bool
  is_training id = (decision_conf cs id).training

  -- The identifiers of production plugins, in their order.
  unfoldable pub production : List String → List String
  production [] = []
  production (id ∷ ids) = let rest = production ids in if is_training id then rest else id ∷ rest

  abbrev pub AllLoaded : List String → Type 0
  AllLoaded = All (λ id. is_loaded id ≡ true)

  abbrev run : List String → Bool → Bool → Checked
  run = check_loop plugins cs loaded tx_id results waf

  -- What a production plugin says, when it is loaded.
  unfoldable pub decides : String → Result DecisionResult
  decides id = elim (lookup id loaded) [
    | none ↦ err decision_not_found
    | some dp ↦ decide plugins cs loaded tx_id results waf id dp
  ]

  -- What the rest says once a production plugin has decided `b`.
  abbrev pub after_first : List String → Bool → Bool × Bool × Option Error
  after_first [] b = (b, true, none)
  after_first (_ ∷ _) b = (false, true, some multiple_enabled)

  -- The verdict by the production plugins alone.
  unfoldable pub verdict_of : List String → Bool × Bool × Option Error
  verdict_of [] = (false, false, none)
  verdict_of (id ∷ more) = elim (decides id) [
    | err e ↦ (false, true, some e)
    | ok res ↦ after_first more res.block
  ]

  loaded_some :
      (id : String) → is_loaded id ≡ true → (dp : DecisionPluginData) × (lookup id loaded ≡ some dp)
  loaded_some id h = ground arith

  -- A round by the kind of the plugin: in training, second in production, first in production.
  round-training :
      (id : String) (dp : DecisionPluginData) (found result : Bool) (rest : Bool → Bool → Checked)
      → is_training id ≡ true
      → verdict (check_round plugins cs loaded tx_id results waf id dp found result rest)
        ≡ verdict (rest found result)
  unfolding check_round
  round-training id dp found result rest t = rw (t, check_round) (ground arith)

  round-second :
      (id : String) (dp : DecisionPluginData) (result : Bool) (rest : Bool → Bool → Checked)
      → is_training id ≡ false
      → verdict (check_round plugins cs loaded tx_id results waf id dp true result rest)
        ≡ (false, true, some multiple_enabled)
  unfolding check_round
  round-second id dp result rest t = rw (t, check_round)

  abbrev first_verdict :
      Result DecisionResult → (Bool → Bool → Checked) → Bool × Bool × Option Error
  first_verdict (err e) rest = (false, true, some e)
  first_verdict (ok res) rest = verdict (rest true res.block)

  round-first :
      (id : String) (dp : DecisionPluginData) (result : Bool) (rest : Bool → Bool → Checked)
      → is_training id ≡ false
      → verdict (check_round plugins cs loaded tx_id results waf id dp false result rest)
        ≡ first_verdict (decide plugins cs loaded tx_id results waf id dp) rest
  unfolding check_round
  round-first id dp result rest t = rw (t, check_round) (ground arith)

  run-loaded :
      (id : String) (ids : List String) (found result : Bool) (dp : DecisionPluginData)
      → lookup id loaded ≡ some dp
      → run (id ∷ ids) found result
        ≡ check_round plugins cs loaded tx_id results waf id dp found result (run ids)
  unfolding check_loop
  run-loaded id ids found result dp l = rw (l, check_loop)

  production-training :
      (id : String) (ids : List String)
      → is_training id ≡ true
      → production (id ∷ ids) ≡ production ids
  unfolding production
  production-training id ids t = rw t

  production-cons :
      (id : String) (ids : List String)
      → is_training id ≡ false
      → production (id ∷ ids) ≡ id ∷ production ids
  unfolding production
  production-cons id ids t = rw t

  run-decided :
      (ids : List String) (b : Bool)
      → AllLoaded ids
      → verdict (run ids true b) ≡ after_first (production ids) b
  unfolding check_loop production
  run-decided [] b h = refl
  run-decided (id ∷ ids) b (l, h) =
      let (dp, at) = loaded_some id l in
      elim (Bool-cases (is_training id)) [
        | inl t ↦
            rw (run-loaded id ids true b dp at, round-training id dp true b (run ids) t)
              (rw (production-training id ids t) (run-decided ids b h))
        | inr p ↦
            rw (run-loaded id ids true b dp at, round-second id dp b (run ids) p)
              (rw (production-cons id ids p))
      ]

  decides_lem :
      (id : String) (dp : DecisionPluginData)
      → lookup id loaded ≡ some dp
      → decides id ≡ decide plugins cs loaded tx_id results waf id dp
  unfolding decides
  decides_lem id dp at = rw (at, decides)

  first-verdict_of :
      (id : String) (ids : List String) (r : Result DecisionResult)
      → AllLoaded ids
      → decides id ≡ r
      → first_verdict r (run ids) ≡ verdict_of (id ∷ production ids)
  unfolding verdict_of
  first-verdict_of id ids (err e) h d = rw (d, verdict_of)
  first-verdict_of id ids (ok res) h d = run-decided ids res.block h ∙ rw (d, verdict_of)

  -- When every plugin that is asked for is loaded, the verdict is that of the production plugins
  -- alone, in their order: none decides nothing, a single one decides by its result or fails with
  -- its error, and with a second one the call fails, unless the first has failed.
  pub check_loop-verdict_of :
      (ids : List String)
      → AllLoaded ids
      → verdict (check_loop plugins cs loaded tx_id results waf ids false false)
        ≡ verdict_of (production ids)
  unfolding verdict_of
  check_loop-verdict_of [] h = unfold check_loop production in refl
  check_loop-verdict_of (id ∷ ids) (l, h) =
      let (dp, at) = loaded_some id l in
      elim (Bool-cases (is_training id)) [
        | inl t ↦
            rw (run-loaded id ids false false dp at, round-training id dp false false (run ids) t)
              (rw (production-training id ids t) (check_loop-verdict_of ids h))
        | inr p ↦
            rw (run-loaded id ids false false dp at, round-first id dp false (run ids) p)
              (first-verdict_of id ids (decide plugins cs loaded tx_id results waf id dp) h
                  (decides_lem id dp at)
                ∙ rw (production-cons id ids p))
      ]
