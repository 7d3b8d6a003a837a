-- ===== src/Jobs/Errors.antt =====
-- `WalletJobError` of src/relayer/src/jobs.rs: its classification by the sidecar's text, and what it
-- becomes for the job queue.
use Prim.Native.Char.{Char, code}
use Prim.Native.String.{char_at}
use nautilus_memwal_relayer.Prelude.{
  ℕ, ◌-◌, ◌^◌, String, ◌<>◌, Bool, true, false, ◌&&◌, ◌||◌, contains, leb, if◌then◌else◌,
}

pub data WalletJobError : Type 0 where
  transient permanent : String → WalletJobError

abbrev pub is_permanent : WalletJobError → Bool
is_permanent (transient msg) = false
is_permanent (permanent msg) = true

abbrev lower_char : Char → Char
lower_char c =
    if leb 65 (code c) && leb (code c) 90
    then char_at "abcdefghijklmnopqrstuvwxyz" (code c - 65)
    else c

unfoldable pub to_ascii_lowercase : String → String
to_ascii_lowercase String.[] = String.[]
to_ascii_lowercase (String.◌∷◌ c s) = String.◌∷◌ (lower_char c) (to_ascii_lowercase s)

-- The texts of a locked object, looked for in the lower-cased message
abbrev pub says_locked : String → Bool
says_locked lower =
    contains lower "objectlocked"
    || contains lower "object_locked"
    || contains lower "object is locked"
    || contains lower "locked at version"

abbrev pub says_abort : String → Bool
says_abort lower = contains lower "moveabort" || contains lower "move abort"

unfoldable pub classify_sidecar_error : String → WalletJobError
unfolding to_ascii_lowercase
classify_sidecar_error msg =
    let lower = to_ascii_lowercase msg in
    if says_locked lower
    then transient msg
    else if says_abort lower
    then permanent msg
    else transient msg

-- `impl Display`
abbrev pub job_error_text : WalletJobError → String
job_error_text (transient msg) = "wallet job error (transient): " <> msg
job_error_text (permanent msg) = "wallet job error (permanent): " <> msg

-- The two kinds of `apalis::prelude::Error` that the handlers give: the queue runs a failed job
-- again, and an aborted one never.
pub data ApalisError : Type 0 where
  failed_job aborted : String → ApalisError

abbrev pub into_apalis_error : WalletJobError → ApalisError
into_apalis_error (transient msg) = failed_job (job_error_text (transient msg))
into_apalis_error (permanent msg) = aborted (job_error_text (permanent msg))

abbrev pub max_attempts : ℕ
max_attempts = 3

-- In seconds; `2u64.pow` of an attempt below 64.
abbrev pub backoff_duration : ℕ → ℕ
backoff_duration attempt = 2 ^ attempt
