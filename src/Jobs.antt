-- ===== src/Jobs.antt =====
-- src/relayer/src/jobs.rs: the job queue's payloads and handlers.
pub mod Types
pub mod Errors
pub mod Wallet
pub mod Remember
pub mod Stored
pub mod RowSteps
pub mod Settled
pub mod Found
pub mod FanOut
