-- ===== src/Enclave/Entropy.antt =====
-- `get_entropy` of src/aws/src/lib.rs and `seed_entropy` of src/system/src/lib.rs. The security module
-- and the file `/dev/urandom` are parameters.
use nautilus_memwal_relayer.Prelude.{
  ℕ, zero, suc, String, Bool, true, false, Option, none, some, [], ◌++◌, Result, ok, err, length,
  ltb, if◌then◌else◌,
}
use nautilus_memwal_relayer.Types.{Bytes}

-- `SystemError`, by its message
abbrev pub SystemError : Type 0
SystemError = String

-- What one `nsm_get_random` of a buffer of 256 bytes does: it fails, or it leaves that buffer.
abbrev pub Random : Type 0
Random = ℕ → Option Bytes

-- `none` at the end of the fuel: the loop has not ended.
unfoldable pub fill : Random → ℕ → ℕ → ℕ → Bytes → Option (Result {0, 0} SystemError Bytes)
fill random size zero call dest = none
fill random size (suc fuel) call dest = elim (ltb (length dest) size) [
  | false ↦ some (ok dest)
  | true ↦ elim (random call) [
    | none ↦ some (err "Failed to get entropy from NSM device")
    | some buf ↦ fill random size fuel (suc call) (dest ++ buf)
  ]
]

unfoldable pub get_entropy : Bool → Random → ℕ → ℕ → Option (Result {0, 0} SystemError Bytes)
unfolding fill
get_entropy opens random fuel size =
    if opens then fill random size fuel 0 [] else some (err "Failed to connect to NSM device")

-- The kernel's pool: what was written to it, or why not
pub record Urandom : Type 0 where
  pub opens : Bool
  pub accepts : Bytes → Bool

abbrev pub write_sample : Urandom → Bytes → Result {0, 0} SystemError ℕ
write_sample urandom sample =
    if urandom.opens
    then if urandom.accepts sample
      then ok (length sample)
      else err "Failed to write to /dev/urandom"
    else err "Failed to open /dev/urandom"

unfoldable pub seed_entropy :
    Urandom → (ℕ → Result {0, 0} SystemError Bytes) → ℕ → Result {0, 0} SystemError ℕ
seed_entropy urandom source size = elim (source size) [
  | ok sample ↦ write_sample urandom sample
  | err e ↦ err e
]
