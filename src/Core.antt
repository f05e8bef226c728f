-- ===== src/Core.antt =====
-- wacecore.go, queue.go and metrics.go: the calls of the host, its start and its reload.
pub mod Dispatch
pub mod Wait
pub mod Transactions
pub mod DispatchLaws
pub mod LaunchLaws
pub mod WaitLaws
pub mod Counters
pub mod TransactionsLaws
pub mod Phase
pub mod Outcomes
pub mod SettleLaws
pub mod MessageLaws
pub mod RemoteLaws
pub mod PhaseLaws
pub mod SyncPhaseLaws
pub mod SwapLaws
pub mod OrderLaws
pub mod Metrics
pub mod Lifecycle
pub mod LifecycleLaws
pub mod ReloadLaws
pub mod LifecycleInvariant
pub mod Stuck
