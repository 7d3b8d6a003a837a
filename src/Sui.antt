-- ===== src/Sui.antt =====
-- src/relayer/src/sui.rs: a delegate key is looked up in an account object, or in the accounts that
-- the registry lists.
pub mod Json
pub mod Verify
pub mod Scan
pub mod Confirmed
pub mod Named
pub mod ScanConfirmed
pub mod Ends
