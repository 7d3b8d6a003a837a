-- ===== src/Auth/Headers.antt =====
-- What the headers of a request say once src/relayer/src/auth.rs has read them.
use nautilus_memwal_relayer.Prelude.{
  ℕ, ◌+◌, ◌/◌, length, inl, inr, Option-cases, nat_eq_iff, ◌≤◌, ◌≡◌, refl, String, Bool, true,
  false, Option, none, some, Result, ok, err, arith,
}
use nautilus_memwal_relayer.Prelude.Int.{ℤ, pos_part, neg_part}
use nautilus_memwal_relayer.Types.{Bytes}
use nautilus_memwal_relayer.World.State.{World}
use nautilus_memwal_relayer.World.Env.{Env}
use nautilus_memwal_relayer.World.Calls.{now, spend}
use nautilus_memwal_relayer.Prelude.Numbers.{parse_i64}
use nautilus_memwal_relayer.Auth.Timestamp.{age_of, in_time}
use nautilus_memwal_relayer.Auth.Verify.{
  Request, Rejection, Signed, decode_array, read_headers, at_once,
}

-- A timestamp that parses and lies in the window at that second.
abbrev is_timely : ℕ → Option ℤ → Bool
is_timely at none = false
is_timely at (some seconds) = in_time (age_of at seconds)

-- Within 300 seconds on either side of the clock
abbrev pub Timely : ℕ → String → Type 0
Timely at timestamp =
    (seconds : ℤ) × (parse_i64 timestamp ≡ some seconds)
    × (at + neg_part seconds ≤ pos_part seconds + 300)
    × (pos_part seconds ≤ at + neg_part seconds + 300)

age-Timely :
    (at : ℕ) (seconds : ℤ)
    → in_time (age_of at seconds) ≡ true
    → (at + neg_part seconds ≤ pos_part seconds + 300)
      × (pos_part seconds ≤ at + neg_part seconds + 300)
unfolding in_time age_of
age-Timely at seconds h = ground (arith, h)

timestamp-Timely :
    (at : ℕ) (timestamp : String) → is_timely at (parse_i64 timestamp) ≡ true → Timely at timestamp
timestamp-Timely at timestamp h = elim (Option-cases (parse_i64 timestamp)) [
  | inl e ↦ (let clash : ⊥ = cc (rw e at h) in absurd clash)
  | inr (seconds, e) ↦
      let (low, high) = age-Timely at seconds (rw e at h) in (seconds, e, low, high)
]

abbrev decoded_header : Env → ℕ → Option String → Result Rejection Bytes
decoded_header env size none = err (at_once 401)
decoded_header env size (some text) = decode_array env size text

-- A header that is the hexadecimal text of so many bytes
abbrev pub IsHex : Env → ℕ → Option String → Bytes → Type 0
IsHex env size header bytes =
    (text : String) × (header ≡ some text)
    × (env.hex_decode text ≡ some bytes)
    × (length bytes ≡ size)

decoded_header-IsHex :
    (env : Env) (size : ℕ) (header : Option String) (bytes : Bytes)
    → decoded_header env size header ≡ ok bytes
    → IsHex env size header bytes
decoded_header-IsHex env size none bytes h = cc
decoded_header-IsHex env size (some text) bytes h =
    (text, refl, ground (arith, h), ground (arith, h, nat_eq_iff (length bytes) size))

record Read (env : Env) (request : Request) (w : World) (signed : Signed) : Type 0 where
  nonce : request.header "x-nonce" ≡ some signed.nonce
  timestamp : request.header "x-timestamp" ≡ some signed.timestamp
  public_key : request.header "x-public-key" ≡ some signed.public_key_hex
  hint : request.header "x-account-id" ≡ signed.account_id_hint
  uuid : env.is_uuid signed.nonce ≡ true
  verifying : env.is_verifying_key signed.public_key ≡ true
  key : decoded_header env 32 (request.header "x-public-key") ≡ ok signed.public_key
  signature : decoded_header env 64 (request.header "x-signature") ≡ ok signed.signature
  timely : is_timely (env.clock w.calls / 1000) (parse_i64 signed.timestamp) ≡ true
  after : (read_headers env request w).1 ≡ spend w

read_headers-Read :
    (env : Env) (request : Request) (w : World) (signed : Signed)
    → (read_headers env request w).0 ≡ ok signed
    → Read env request w signed
unfolding read_headers now
read_headers-Read env request w signed h = ground arith

pub record Headers (env : Env) (request : Request) (w : World) (signed : Signed) : Type 0 where
  pub nonce : request.header "x-nonce" ≡ some signed.nonce
  pub uuid : env.is_uuid signed.nonce ≡ true
  pub timestamp : request.header "x-timestamp" ≡ some signed.timestamp
  pub timely : Timely (env.clock w.calls / 1000) signed.timestamp
  pub public_key : request.header "x-public-key" ≡ some signed.public_key_hex
  pub key : IsHex env 32 (request.header "x-public-key") signed.public_key
  pub verifying : env.is_verifying_key signed.public_key ≡ true
  pub signature : IsHex env 64 (request.header "x-signature") signed.signature
  pub hint : request.header "x-account-id" ≡ signed.account_id_hint
  pub after : (read_headers env request w).1 ≡ spend w

pub read_headers-Headers :
    (env : Env) (request : Request) (w : World) (signed : Signed)
    → (read_headers env request w).0 ≡ ok signed
    → Headers env request w signed
read_headers-Headers env request w signed h =
    let r = read_headers-Read env request w signed h in
    record {
      nonce = r.nonce;
      uuid = r.uuid;
      timestamp = r.timestamp;
      timely = timestamp-Timely (env.clock w.calls / 1000) signed.timestamp r.timely;
      public_key = r.public_key;
      key = decoded_header-IsHex env 32 (request.header "x-public-key") signed.public_key r.key;
      verifying = r.verifying;
      signature =
          decoded_header-IsHex env 64 (request.header "x-signature") signed.signature r.signature;
      hint = r.hint;
      after = r.after;
    }
