-- ===== src/Auth.antt =====
-- src/relayer/src/auth.rs: the signature middleware and the resolution of accounts.
pub mod Timestamp
pub mod Resolve
pub mod Verify
pub mod Confirmed
pub mod Headers
pub mod Accepted
pub mod Quiet
pub mod Replay
