-- ===== src/PluginManager/Loading/DecisionsHeld.antt =====
-- pluginmanager/pluginmanager.go, loadDecisionPlugins: what the loaded decision plugins hold.
use mod_sec_intl_wace_lib.Base.{
  Map, String, amount, amount-le-sum_of, ap, arith, lookup, some, sum_of, sum_of_all, ℕ, ◌+◌, ◌<◌,
  ◌≡◌, ◌≤◌,
}
use mod_sec_intl_wace_lib.PluginManager.Process.{DecisionPluginData}
use mod_sec_intl_wace_lib.PluginManager.Loading.World.{
  Resource, Role, handler_of, instance_of, training_of,
}
use mod_sec_intl_wace_lib.PluginManager.Loading.Ledger.{here}
use mod_sec_intl_wace_lib.PluginManager.Loading.LedgerLaws.{here_self}
use mod_sec_intl_wace_lib.PluginManager.Loading.HandlersLaws.{held}
use mod_sec_intl_wace_lib.PluginManager.Loading.EquipLaws.{held-training_of, here_instance}

-- What a decision plugin holds.
unfoldable pub decision_uses : Resource → DecisionPluginData → ℕ
decision_uses r dp = here r (instance_of dp.decision_plugin) + held r training_of dp.training

abbrev pub decisions_use : Resource → Map DecisionPluginData → ℕ
decisions_use r = sum_of (decision_uses r)

pub decision_uses_own :
    (dp : DecisionPluginData) → 0 < decision_uses (instance_of dp.decision_plugin) dp
unfolding decision_uses
decision_uses_own dp = omega (arith, here_self (instance_of dp.decision_plugin))

decision_uses-handler_of :
    (role : Role) (i n : ℕ) (dp : DecisionPluginData) → decision_uses (handler_of role i n) dp ≡ 0
unfolding decision_uses
decision_uses-handler_of role i n dp =
    omega (arith, here_instance role i n dp.decision_plugin, held-training_of role i n dp.training)

-- Decision plugins have no handlers.
pub decisions_use-handler_of :
    (role : Role) (i n : ℕ) (plugins : Map DecisionPluginData)
    → decisions_use (handler_of role i n) plugins ≡ 0
decisions_use-handler_of role i n plugins =
    sum_of_all (decision_uses (handler_of role i n)) plugins (decision_uses-handler_of role i n)

pub decisions_use-ge :
    (r : Resource) (id : String) (dp : DecisionPluginData) (plugins : Map DecisionPluginData)
    → lookup id plugins ≡ some dp
    → decision_uses r dp ≤ decisions_use r plugins
unfolding amount
decisions_use-ge r id dp plugins e =
    omega (arith, amount-le-sum_of (decision_uses r) id plugins, ap (amount (decision_uses r)) e)
