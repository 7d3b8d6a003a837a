-- ===== src/RateLimit.antt =====
-- src/relayer/src/rate_limit.rs: the sliding-window rate limiter and the storage quota.
pub mod Window
pub mod Count
pub mod Middleware
pub mod KeyNames
pub mod Admission
pub mod Bounds
pub mod Expiry
pub mod Quota
pub mod QuotaLimit
