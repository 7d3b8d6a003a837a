-- ===== src/Routes.antt =====
-- src/relayer/src/routes.rs: the handlers of the API.
pub mod Prepare
pub mod Remember
pub mod Recall
pub mod Bulk
pub mod Restore
pub mod Analyze
pub mod AnalyzeQueue
pub mod AnalyzeRules
pub mod Ask
pub mod AskScope
pub mod Public
pub mod Truncate
pub mod Untouched
pub mod IsolationReads
pub mod IsolationWrites
pub mod IsolationManual
pub mod IsolationBulk
pub mod IsolationRestore
pub mod RecallRules
pub mod RecallScope
pub mod Status
pub mod RestoreCounts
pub mod RecallCleanup
pub mod BulkFailure
pub mod PrepareFailure
pub mod Lifecycle
