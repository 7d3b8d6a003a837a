-- ===== src/Enclave/Logs.antt =====
-- `LogBuffer` and the handlers of `/enclave_health` and `/logs` of src/relayer/src/enclave.rs.
use nautilus_memwal_relayer.Prelude.{
  ℕ, String, Option, List, [], ◌∷◌, ◌++◌, length, take, drop, leb, min, unwrap_or, if◌then◌else◌,
}
use nautilus_memwal_relayer.World.Env.{Env}
use nautilus_memwal_relayer.Enclave.KeyPair.{EnclaveKeyPair, public_key_bytes}

pub record LogBuffer : Type 0 where
  pub lines : List String
  pub capacity : ℕ

unfoldable pub new : ℕ → LogBuffer
new capacity = record { lines = []; capacity = capacity }

-- `pop_front` of an empty buffer takes nothing.
unfoldable pub push : LogBuffer → String → LogBuffer
push buf line =
    let kept = if leb buf.capacity (length buf.lines) then drop 1 buf.lines else buf.lines in
    record buf { lines = kept ++ line ∷ [] }

-- `rev` on an iterator
abbrev pub reverse {ℓ} : {A : Type ℓ} → List A → List A
reverse [] = []
reverse (x ∷ xs) = reverse xs ++ x ∷ []

-- `iter().rev().take(n).rev()`
unfoldable pub recent : LogBuffer → ℕ → List String
recent buf n = reverse (take n (reverse buf.lines))

pub record EnclaveHealthResponse : Type 0 where
  pub public_key : String
  pub status : String

unfoldable pub enclave_health : Env → EnclaveKeyPair → EnclaveHealthResponse
enclave_health env kp = record {
  public_key = env.hex_encode (public_key_bytes env kp);
  status = "ok";
}

pub record LogsResponse : Type 0 where
  pub lines : List String
  pub count : ℕ

unfoldable pub get_logs : LogBuffer → Option ℕ → LogsResponse
unfolding recent
get_logs buf requested =
    let lines = recent buf (min (unwrap_or requested 100) 1000) in
    record { lines = lines; count = length lines }
