-- ===== src/Redis.antt =====
-- What the relayer keeps in Redis: string keys with an expiry (nonces, cached ciphertexts) and the
-- sorted sets of the rate limiter. Each function is one command, or one atomic pipe of commands, of
-- src/relayer/src/auth.rs, rate_limit.rs and jobs.rs.
use nautilus_memwal_relayer.Prelude.{
  ℕ, ◌+◌, ◌*◌, String, Bool, true, false, not, Option, none, some, List, [], ◌∷◌, retain, any,
  str_eq, nat_eq, leb, if◌then◌else◌,
}
use nautilus_memwal_relayer.Types.{Bytes}

pub record StoredValue : Type 0 where
  pub value : Bytes
  pub expires_at : ℕ

-- A member is the printed form of its score, so one number stands for both. Scores are in
-- microseconds: the source adds thousandths to milliseconds.
pub record Window : Type 0 where
  pub scores : List ℕ
  pub expires_at : ℕ

pub record Redis : Type 0 where
  pub strings : String → Option StoredValue
  pub windows : String → Window

abbrev pub no_window : Window
no_window = record { scores = []; expires_at = 0 }

abbrev pub empty : Redis
empty = record { strings = λ k. none; windows = λ k. no_window }

abbrev pub update {ℓ} : {V : Type ℓ} → (String → V) → String → V → String → V
update m k v j = if str_eq k j then v else m j

-- A key is gone once the clock has passed its expiry.
abbrev pub live : ℕ → Option StoredValue → Option StoredValue
live now none = none
live now (some v) = if leb now v.expires_at then some v else none

abbrev pub live_window : ℕ → Window → Window
live_window now w = if leb now w.expires_at then w else no_window

-- `SET key value NX EX seconds`: whether the key was set
unfoldable pub set_nx : ℕ → String → Bytes → ℕ → Redis → Bool × Redis
set_nx now key value seconds r = elim (live now (r.strings key)) [
  | none ↦ (
    true,
    record r {
      strings =
          update r.strings key (some (record { value = value; expires_at = now + seconds * 1000 }));
    },
  )
  | some v ↦ (false, r)
]

-- `SETEX key seconds value`
unfoldable pub set_ex : ℕ → String → Bytes → ℕ → Redis → Redis
set_ex now key value seconds r = record r {
  strings =
      update r.strings key (some (record { value = value; expires_at = now + seconds * 1000 }));
}

-- `ZREMRANGEBYSCORE key 0 (now - span)`, scores and span in microseconds
abbrev pub prune : ℕ → ℕ → List ℕ → List ℕ
prune now_us span = retain (λ s. not (leb (s + span) now_us))

-- `ZADD key s s`: an existing member keeps its place
abbrev pub zadd : ℕ → List ℕ → List ℕ
zadd s scores = if any (λ t. nat_eq t s) scores then scores else s ∷ scores
