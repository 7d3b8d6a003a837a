-- ===== src/World/State.antt =====
-- The mutable state behind `AppState` (src/relayer/src/types.rs), and the number of calls that have
-- left the process, which is the time by which the environment chooses its answers.
use nautilus_memwal_relayer.Prelude.{ℕ, zero, String, List, []}
use nautilus_memwal_relayer.Db
use nautilus_memwal_relayer.Db.{Database}
use nautilus_memwal_relayer.Redis
use nautilus_memwal_relayer.Redis.{Redis}
use nautilus_memwal_relayer.Types.KeyPool.{KeyPool}
use nautilus_memwal_relayer.Jobs.Types.{WalletJob, PrepareTask}

pub record World : Type 0 where
  pub calls : ℕ
  pub db : Database
  pub redis : Redis
  pub key_pool : KeyPool
  -- the Apalis storage of wallet jobs, newest last
  pub wallet_queue : List WalletJob
  -- tasks handed to `tokio::spawn`, newest last
  pub spawned : List PrepareTask
  -- a record that the source does not keep: the number, the URL and the object of each call of
  -- `sui_getObject` that is read at typed fields, newest first
  pub object_calls : List (ℕ × String × String)

abbrev pub start : KeyPool → World
start pool = record {
  calls = zero;
  db = Db.empty;
  redis = Redis.empty;
  key_pool = pool;
  wallet_queue = [];
  spawned = [];
  object_calls = [];
}
