-- ===== src/Db.antt =====
-- The tables of src/relayer/migrations and the statements that src/relayer/src/db.rs, routes.rs and
-- jobs.rs run on them. A table is the list of its rows; a statement that changes a table is a
-- function on it. Times are milliseconds of the database's `NOW()`.
pub mod Vectors
pub mod Sorted
pub mod Search
pub mod VectorRules
pub mod Owned
pub mod Keys
pub mod Jobs
pub mod JobRules
use nautilus_memwal_relayer.Prelude.{String, List, []}
use Vectors.{VectorEntry}
use Keys.{CachedKey}
use Jobs.{RememberRow}

pub record Database : Type 0 where
  pub vectors : List VectorEntry
  pub keys : List CachedKey
  pub jobs : List RememberRow
  -- account ids with their owners, which another program writes
  pub accounts : List (String × String)

abbrev pub empty : Database
empty = record { vectors = []; keys = []; jobs = []; accounts = [] }
