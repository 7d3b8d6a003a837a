-- ===== src/Lib.antt =====
-- A model of the relayer in src/relayer, with the enclave crates beside it: an HTTP server that keeps a
-- user's memories as encrypted blobs on Walrus, indexes them by their embeddings in Postgres, admits
-- requests that a delegate key of the user's on-chain account has signed, and signs its answers with
-- the key of its enclave.
--
-- A request passes the signature middleware (src/relayer/src/auth.rs), which claims its nonce in Redis
-- and resolves the account by the Sui node (src/relayer/src/sui.rs), then the rate limiter
-- (src/relayer/src/rate_limit.rs), then a handler (src/relayer/src/routes.rs). A handler answers at
-- once from the database (src/relayer/src/db.rs) and the services (src/relayer/src/seal.rs,
-- walrus.rs), or spawns a task that enqueues a wallet job, which a worker (src/relayer/src/jobs.rs)
-- runs later. `sign_response` (src/relayer/src/enclave.rs) wraps most answers.
--
-- The files:
--   Prelude: texts, numbers, lists, options and results over the native numbers.
--   Types, Types/KeyPool, Types/Settings: types.rs, the errors, the pool of signing keys and the
--     configuration that is read from the environment. Types/KeyList: the list of keys.
--   World: `World` is the state behind `AppState`: the tables, Redis, the key pool, the job queue and
--     the spawned tasks. `Env` is all else: clock, outcomes of the connections, HTTP replies, and the
--     crates for hashing, signatures, hexadecimal and BCS.
--     An `Action` is a function from a state to a result and a state; `?` is its bind.
--   Db, VectorDb: db.rs, the statements as functions on tables, and the methods as actions.
--   Redis: the Redis commands.
--   Auth: auth.rs. Sui: sui.rs. RateLimit: rate_limit.rs. Clients: seal.rs, walrus.rs,
--     `generate_embedding` and the chat service of `extract_facts_llm` and `ask`. Jobs: jobs.rs.
--   Routes: routes.rs, a file for each group of handlers; the files named Isolation, with Untouched,
--     hold the lemmas on the rows of one owner.
--   Enclave: Sign and Logs are enclave.rs, KeyPair and Attestation are src/nautilus-enclave, and
--     Entropy is `get_entropy` of src/aws and `seed_entropy` of src/system.
--   Server: main.rs. Start is the start of the process, Requests reads the JSON bodies of types.rs,
--     Router puts the two middlewares in front of the handlers of the protected routes, and
--     PublicRoutes has the others.
--   Tests: runs at concrete inputs.
--
-- Every call that leaves the process takes the next number of `World.calls`, and the environment
-- answers by that number, so it may answer differently each time. A database statement or a Redis
-- pipe runs whole; it is answered, refused, or run with its answer lost. Requests are modelled one at
-- a time, and the tasks that one request runs at once are run in the order of their list.
--
-- Bounds: `usize` and `i64` keep their wrap-around where the code computes with them (the key pool's
-- counter, the storage quota, the timestamp's age, the limit of a search). The registry scan has fuel,
-- one unit for a page; its end is an outcome of its own that accepts nothing, as a loop that never
-- returns, and fuel above the number of pages is enough where the cursors go on through the table. The
-- loop of `get_entropy` has fuel, one unit for a round of 256 bytes and one to see that it is done. The
-- wait for the sidecar has the 30 attempts of the code. The scores of rate-limit windows are in
-- microseconds. A distance is the bit pattern of a float that is not negative.
--
-- The embeddings have an approximate (HNSW) index (src/relayer/migrations/001_init.sql,
-- 007_vector_dimensions.sql): which rows the scan of that index reaches is a parameter of `Env`, and
-- a search filters, sorts and cuts the rows that were reached. `World.object_calls` is a record that
-- the source does not keep, of the `sui_getObject` calls by which keys are verified; the theorems on
-- accounts read it.
--
-- Not modelled: the sidecar's scripts and the Move contract (they answer through `Env`), the system
-- calls at boot, how axum finds the route of a path, the JSON parser (its fields are a parameter), the
-- loops that start a job monitor again, log lines, and the figures that some error texts carry.
pub mod Prelude
pub mod Types
pub mod Tests
pub mod Db
pub mod Enclave
pub mod Redis
pub mod Jobs
pub mod World
pub mod VectorDb
pub mod RateLimit
pub mod Routes
pub mod Sui
pub mod Auth
pub mod Clients
pub mod Server
