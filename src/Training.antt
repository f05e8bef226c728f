-- ===== src/Training.antt =====
-- pluginmanager/training_plugin.go: the collection of training samples.
pub mod Status
pub mod StatusFile
pub mod Collect
pub mod StatusFileLaws
pub mod StatusLaws
pub mod Rounds
pub mod CollectLaws
pub mod Moments
pub mod LoopWrites
pub mod WriteLaws
pub mod FillLaws
pub mod CompleteLaws
