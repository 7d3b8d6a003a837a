-- ===== src/World.antt =====
-- The state that the relayer changes, the environment that answers its calls, and the actions that
-- the handlers are made of.
pub mod State
pub mod Env
pub mod Action
pub mod Calls
pub mod Rules
pub mod Keeps
pub mod Preserves
pub mod Ensures
