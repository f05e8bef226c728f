-- ===== src/PluginManager/Loading.antt =====
-- pluginmanager/pluginmanager.go, the loading of plugins: New, Reload, loadModelPlugins,
-- loadDecisionPlugins, the NATS handlers of a plugin, and registerMetrics of metrics.go.
pub mod World
pub mod Handlers
pub mod Stop
pub mod StopLaws
pub mod Models
pub mod Decisions
pub mod Manager
pub mod Ledger
pub mod LedgerLaws
pub mod HandlersLaws
pub mod AdaptLaws
pub mod EquipLaws
pub mod ModelsLaws
pub mod LoadLaws
pub mod DecisionsHeld
pub mod DecisionsLaws
pub mod ManagerLaws
pub mod Connected
pub mod FollowLaws
pub mod Outcome
pub mod Keyed
pub mod Configured
pub mod DecisionsRound
pub mod DecisionsFollow
pub mod DrainLaws
