-- ===== src/PluginManager/CheckResult.antt =====
-- pluginmanager/pluginmanager.go, CheckResult: the decision plugins over the results so far.
use mod_sec_intl_wace_lib.Base.{
  Bool, Error, List, Map, Option, Result, String, [], decision_not_found, err, false, get_elem?,
  lookup, multiple_enabled, none, ok, pos, results_not_found, some, true, ℕ, ◌∷◌,
}
use mod_sec_intl_wace_lib.WaceApi.{DecisionInput, DecisionResult, ModelResults, WafData}
use mod_sec_intl_wace_lib.ConfigStore.Defs.{ConfigPointer, ConfigStore, DecisionPluginConfig, get}
use mod_sec_intl_wace_lib.PluginManager.Tx.{Store, load_sync_tx}
use mod_sec_intl_wace_lib.PluginManager.Process.{
  Context, DecisionPluginData, Handle, Plugins, plugin_context,
}

-- The call of a plugin in training, which runs in a goroutine of its own.
pub record Shadow : Type 0 where
  pub training : ℕ
  pub plugin : Handle
  pub context : Context
  pub input : DecisionInput

-- The three results, and the goroutines that were started.
pub record Checked : Type 0 where
  pub block : Bool
  pub decided : Bool
  pub error : Option Error
  pub shadows : List Shadow

-- The configuration of a decision plugin; a missing one reads as the zero value.
unfoldable pub decision_conf : ConfigStore → String → DecisionPluginConfig
decision_conf cs id = elim (lookup id cs.decision_plugins) [
  | some d ↦ d
  | none ↦ record {
    id = "";
    path = "";
    params = [];
    training = false;
    training_data = record {
      min_samples = pos 0;
      max_samples = pos 0;
      result_file_path = "";
      status_file_path = "";
      status_update_interval = pos 0;
    };
    model_weights = [];
    waf_weight = 0;
    timeout = pos 0;
  }
]

-- The input of a decision plugin.
unfoldable pub decision_input :
    String → DecisionPluginConfig → Map ModelResults → WafData → DecisionInput
decision_input tx_id d results waf = record {
  transaction_id = tx_id;
  results = results;
  model_weight = d.model_weights;
  waf_weight = d.waf_weight;
  waf_data = waf;
  training = d.training;
}

-- One more goroutine in front of those of the rest.
abbrev pub with_shadow : Shadow → Checked → Checked
with_shadow g r = record r { shadows = g ∷ r.shadows }

module _ (plugins : Plugins) (cs : ConfigStore) (loaded : Map DecisionPluginData) (tx_id : String)
    (results : Map ModelResults) (waf : WafData) where
  -- The goroutine of a plugin in training, if its training runs.
  unfoldable pub shadow_of : String → DecisionPluginData → Option Shadow
  unfolding decision_conf decision_input
  shadow_of id dp = elim dp.training [
    | none ↦ none
    | some tr ↦ some (record {
      training = tr;
      plugin = dp.decision_plugin;
      context = plugin_context [] (decision_conf cs id).timeout;
      input = decision_input tx_id (decision_conf cs id) results waf;
    })
  ]

  -- `dp.decisionPlugin.CheckResults` for a production plugin.
  unfoldable pub decide : String → DecisionPluginData → Result DecisionResult
  unfolding decision_conf decision_input
  decide id dp =
      plugins.decide dp.decision_plugin (plugin_context [] (decision_conf cs id).timeout)
        (decision_input tx_id (decision_conf cs id) results waf)

  abbrev pub checked : Bool → Bool → Option Error → Checked
  checked b d e = record { block = b; decided = d; error = e; shadows = [] }

  -- One round of the loop for a plugin that is loaded, with `enabledPluginFound`, `result` and the
  -- rounds that follow.
  unfoldable pub check_round :
      String → DecisionPluginData → Bool → Bool → (Bool → Bool → Checked) → Checked
  check_round id dp found result rest = elim (decision_conf cs id).training [
    | true ↦ elim (shadow_of id dp) [
      | none ↦ rest found result
      | some g ↦ with_shadow g (rest found result)
    ]
    | false ↦ elim found [
      | true ↦ checked false true (some multiple_enabled)
      | false ↦ elim (decide id dp) [
        | err e ↦ checked false true (some e)
        | ok res ↦ rest true res.block
      ]
    ]
  ]

  -- The loop over the identifiers.
  unfoldable pub check_loop : List String → Bool → Bool → Checked
  check_loop [] found result = checked result found none
  check_loop (id ∷ ids) found result = elim (lookup id loaded) [
    | none ↦ checked false false (some decision_not_found)
    | some dp ↦ check_round id dp found result (check_loop ids)
  ]

-- `maps.Clone(tx.results)`
unfoldable pub tx_results : Store → ℕ → Map ModelResults
tx_results s a = elim (get_elem? s.sync_heap a) [ none ↦ [] | some tx ↦ tx.results ]

-- `CheckResult`. Without a configuration it returns no error.
unfoldable pub check_result :
    Plugins
    → ConfigPointer
    → Map DecisionPluginData
    → Store
    → String
    → List String
    → WafData
    → Checked
unfolding load_sync_tx tx_results
check_result plugins config loaded s tx_id ids waf = elim (load_sync_tx s tx_id) [
  | none ↦ record { block = false; decided = false; error = some results_not_found; shadows = [] }
  | some a ↦ elim (get config) [
    | err e ↦ record { block = false; decided = false; error = none; shadows = [] }
    | ok cs ↦ check_loop plugins cs loaded tx_id (tx_results s a) waf ids false false
  ]
]
