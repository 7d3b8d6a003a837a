-- ===== src/Server/StartRules.antt =====
-- When src/relayer/src/main.rs goes on from the wait for its sidecar, and with what it then serves.
use mathlib.Core.Path.{subst}
use nautilus_memwal_relayer.Prelude.{
  ℕ, ◌≤◌, ◌≡◌, refl, ap, inl, inr, String, Bool, true, false, Option, none, some, Result, ok,
  Bool-cases, unwrap_or, arith, str_eq, eq_iff, show, ◌<>◌, ◌≢◌, if◌then◌else◌,
}
use nautilus_memwal_relayer.Types.KeyPool
use nautilus_memwal_relayer.Enclave.Logs
use nautilus_memwal_relayer.Prelude.Numbers.{parse_unsigned}
use nautilus_memwal_relayer.Types.Settings.{
  config_of, Settings, from_env, number_of, default_embedding_cache_ttl_secs,
}
use nautilus_memwal_relayer.Server.Waiting.{IsFirst, wait_ready-IsFirst}
use nautilus_memwal_relayer.Server.Start.{
  Outside, Server, start, wait_ready, is_healthy, attempts, address_of, workers, dimension_mismatch,
  expect, expect_some,
}

expect-eq-ok :
    {A : Type 0} (b : Bool) (msg : String) (rest : Result String A) {a : A}
    → expect b msg rest ≡ ok a
    → (b ≡ true) × (rest ≡ ok a)
expect-eq-ok true msg rest h = (refl, h)
expect-eq-ok false msg rest h = cc

expect_some-eq-ok :
    {A B : Type 0} (o : Option A) (msg : String) (f : A → Result String B) {b : B}
    → expect_some o msg f ≡ ok b
    → (a : A) × (o ≡ some a) × (f a ≡ ok b)
expect_some-eq-ok none msg f h = cc
expect_some-eq-ok (some a) msg f h = (a, refl, h)

-- The server of a start that has gone through
abbrev made_server : Outside → Settings → ℕ → Server
made_server outside settings ready = record {
  settings = settings;
  key_pool = KeyPool.new settings.config.sui_private_keys;
  eph_kp = record { signing_key = outside.signing_key };
  logs = Logs.new 1000;
  dimension_warning =
      dimension_mismatch settings.config.embedding_dimensions outside.column_dimension;
  embedding_cache_ttl =
      unwrap_or (number_of outside.var "EMBEDDING_CACHE_TTL_SECS" 64)
        default_embedding_cache_ttl_secs;
  workers = workers outside.var;
  address = address_of outside settings;
  ready = ready;
}

-- The settings that have no default are those of the environment.
abbrev pub IsConfigured : (String → Option String) → Settings → Type 0
IsConfigured var settings =
    (var "DATABASE_URL" ≡ some settings.database_url)
    × (var "MEMWAL_PACKAGE_ID" ≡ some settings.config.package_id)
    × (var "MEMWAL_REGISTRY_ID" ≡ some settings.config.registry_id)
    × (parse_unsigned 16 (unwrap_or (var "PORT") "8000") ≡ some settings.port)

abbrev pub IsReachable : Outside → Settings → Type 0
IsReachable outside settings =
    (outside.sidecar_spawns ≡ true)
    × (outside.database_connects settings.database_url ≡ true)
    × (outside.walrus_urls_valid settings.walrus_aggregator_url settings.walrus_publisher_url
        ≡ true)
    × (outside.redis_connects settings.redis_url ≡ true)
    × (outside.queue_connects ≡ true)
    × (outside.queue_migrates ≡ true)

-- Where a server listens
abbrev pub Listens : Outside → Server → Type 0
Listens outside server =
    (outside.binds server.address ≡ true)
    × (outside.var "ENCLAVE_MODE" ≡ some "true"
        → server.address ≡ "127.0.0.1" <> ":" <> show server.settings.port)
    × (outside.var "ENCLAVE_MODE" ≢ some "true"
        → server.address ≡ "0.0.0.0" <> ":" <> show server.settings.port)

from_env-IsConfigured :
    (var : String → Option String) (settings : Settings)
    → from_env var ≡ some settings
    → IsConfigured var settings
unfolding from_env config_of
from_env-IsConfigured var settings h = ground (arith, h)

is_enclave-cases :
    (mode : Option String) (port : String)
    → let address : String =
        (if (elim mode [ none ↦ false | some v ↦ str_eq v "true" ]) then "127.0.0.1" else "0.0.0.0")
        <> ":"
        <> port in
      (mode ≡ some "true" → address ≡ "127.0.0.1" <> ":" <> port)
      × (mode ≢ some "true" → address ≡ "0.0.0.0" <> ":" <> port)
is_enclave-cases none port = (λ e. (let none_set : ⊥ = cc in absurd none_set), λ _. refl)
is_enclave-cases (some v) port = elim (Bool-cases (str_eq v "true")) [
  | inl on ↦
      let set : some v ≡ some "true" = ap some ((eq_iff v "true").0 on) in
      (λ _. rw on refl, λ off. absurd (off set))
  | inr off ↦ (
    λ set.
        let same : v ≡ "true" = cc in
        let on = (eq_iff v "true").1 same in (let clash : ⊥ = cc in absurd clash),
    λ _. rw off refl,
  )
]

started :
    (outside : Outside) (settings : Settings) (ready : ℕ) (server : Server)
    → from_env outside.var ≡ some settings
    → wait_ready outside.health attempts 1 ≡ some ready
    → IsReachable outside settings
    → outside.binds (address_of outside settings) ≡ true
    → Path (Result {0, 0} String Server) (ok (made_server outside settings ready)) (ok server)
    → IsConfigured outside.var server.settings
      × IsReachable outside server.settings
      × IsFirst outside.health 1 30 server.ready
      × (server.key_pool.keys ≡ server.settings.config.sui_private_keys)
      × (server.key_pool.counter ≡ 0)
      × Listens outside server
started outside settings ready server read waited reached bound h =
    let same : made_server outside settings ready ≡ server = cc in
    let address = is_enclave-cases (outside.var "ENCLAVE_MODE") (show settings.port) in
    subst
      (λ (s : Server).
        IsConfigured outside.var s.settings
        × IsReachable outside s.settings
        × IsFirst outside.health 1 30 s.ready
        × (s.key_pool.keys ≡ s.settings.config.sui_private_keys)
        × (s.key_pool.counter ≡ 0)
        × Listens outside s)
      same
      (
        from_env-IsConfigured outside.var settings read,
        reached,
        wait_ready-IsFirst outside.health attempts 1 ready waited,
        refl,
        refl,
        (bound, address.0, address.1),
      )

pub start-ready :
    (outside : Outside) (server : Server)
    → start outside ≡ ok server
    → IsConfigured outside.var server.settings
      × IsReachable outside server.settings
      × IsFirst outside.health 1 30 server.ready
      × (server.key_pool.keys ≡ server.settings.config.sui_private_keys)
      × (server.key_pool.counter ≡ 0)
      × Listens outside server
unfolding start
start-ready outside server h =
    let (settings, read, h1) = expect_some-eq-ok (from_env outside.var) _ _ h in
    let (spawned, h2) = expect-eq-ok outside.sidecar_spawns _ _ h1 in
    let (ready, waited, h3) = expect_some-eq-ok (wait_ready outside.health attempts 1) _ _ h2 in
    let (database, h4) = expect-eq-ok (outside.database_connects settings.database_url) _ _ h3 in
    let (walrus, h5) =
      expect-eq-ok
        (outside.walrus_urls_valid settings.walrus_aggregator_url settings.walrus_publisher_url) _ _
        h4 in
    let (redis, h6) = expect-eq-ok (outside.redis_connects settings.redis_url) _ _ h5 in
    let (queue, h7) = expect-eq-ok outside.queue_connects _ _ h6 in
    let (migrated, h8) = expect-eq-ok outside.queue_migrates _ _ h7 in
    let (bound, h9) = expect-eq-ok (outside.binds (address_of outside settings)) _ _ h8 in
    started outside settings ready server read waited
      (spawned, database, walrus, redis, queue, migrated) bound h9

-- A sidecar that is not healthy at any of the 30 attempts keeps the server from starting.
pub start-sidecar :
    (outside : Outside) (server : Server)
    → ((j : ℕ) → 1 ≤ j → j ≤ 30 → is_healthy (outside.health j) ≡ false)
    → ¬ (start outside ≡ ok server)
start-sidecar outside server dead h =
    let (settings, reachable, (low, high, well, before), keys, counter, listens) =
      start-ready outside server h in
    let ill = dead server.ready low (omega arith) in cc
