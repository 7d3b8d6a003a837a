-- ===== src/Clients.antt =====
-- The clients of the HTTP services: src/relayer/src/seal.rs, walrus.rs, and the embedding call of
-- routes.rs.
mod Replies
pub mod Rules
pub mod Seal
pub mod Walrus
pub mod Embeddings
pub mod Chat
pub mod ChatRules
pub use Replies.*
