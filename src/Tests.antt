-- ===== src/Tests.antt =====
-- The theorems at concrete inputs, and runs of the definitions.
pub mod Data
mod Config
mod Traffic
mod Collection
mod Transactions
mod Calls
pub mod Loads
mod Reloads
mod StatusFiles
mod Builds
mod Tables
pub mod Wire
mod Phases
