-- ===== src/Server.antt =====
-- src/relayer/src/main.rs: the start of the server, its routes with their middleware, and what a
-- request can do to the tables.
pub mod Start
pub mod Waiting
pub mod StartRules
pub mod Requests
pub mod Router
pub mod PublicRoutes
pub mod Guards
pub mod Handlers
pub mod Isolation
pub mod Admitted
pub mod Refused
