-- ===== src/Tests.antt =====
-- Runs of the modelled code at concrete inputs, for src/relayer.
pub mod Sample
pub mod AuthRuns
pub mod StoreRuns
pub mod LimitRuns
pub mod FailureRuns
pub mod ScanRuns
pub mod EnclaveRuns
pub mod RouteRuns
pub mod ServerRuns
pub mod LifeRuns
