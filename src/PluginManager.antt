-- ===== src/PluginManager.antt =====
-- pluginmanager/pluginmanager.go and metrics.go: the transactions and the calls of the plugins.
pub mod Tx
pub mod AsyncTx
pub mod AsyncTxLaws
pub mod AsyncTxLocked
pub mod AsyncTxRuns
pub mod Process
pub mod Loaded
pub mod CheckResult
pub mod TxLaws
pub mod TxTable
pub mod TxRefinement
pub mod ProcessLaws
pub mod NatsLaws
pub mod CheckLaws
pub mod Nats
pub mod Loading
