-- ===== src/Tests/EnclaveRuns.antt =====
-- The enclave's theorems at concrete keys, logs and devices, with a toy cipher whose laws hold.
use nautilus_memwal_relayer.Prelude.{
  ℕ, zero, suc, ◌≡◌, refl, ap, ◌<◌, String, Bool, true, false, ◌&&◌, Option, none, some, List, [],
  ◌∷◌, ok, nat_eq, if◌then◌else◌, arith, ◌≤◌, ◌%◌, ◌^◌, length,
}
use Prim.Native.Char.{code}
use nautilus_memwal_relayer.Types.{Bytes, AppError}
use nautilus_memwal_relayer.World.Env.{Env}
use nautilus_memwal_relayer.Enclave.KeyPair.{
  EnclaveKeyPair, sign, public_key_bytes, verify_signature,
}
use nautilus_memwal_relayer.Enclave.Sign
use nautilus_memwal_relayer.Enclave.Sign.{
  Intent, IntentMessage, SignedResponse, to_bytes, sign_response, message_of, intent_byte,
}
use nautilus_memwal_relayer.Enclave.SignRules.{
  Crates, Binding, client_accepts, sign_response-signed, sign_response-one_intent,
}
use nautilus_memwal_relayer.Enclave.Logs.{get_logs, new}
use nautilus_memwal_relayer.Enclave.LogRules.{last, push_all, get_logs-newest}
use nautilus_memwal_relayer.Enclave.Attestation.{
  Nsm, NsmRequest, NsmResponse, attestation, describe_pcr, document, pcr, other,
  get_attestation_real,
}
use nautilus_memwal_relayer.Enclave.DeviceRules.{
  openings, closings, is_ok, get_attestation_real-device,
}
use nautilus_memwal_relayer.Enclave.Entropy.{Random, get_entropy}
use nautilus_memwal_relayer.Enclave.EntropyRules.{get_entropy-enough}
use nautilus_memwal_relayer.World.Calls.{now}
use nautilus_memwal_relayer.Tests.Sample.{env, world, key}

-- A printed form of bytes that can be read back: strokes, with a comma after each number
abbrev strokes : ℕ → String → String
strokes zero s = String.◌∷◌ "," s
strokes (suc n) s = String.◌∷◌ "i" (strokes n s)

abbrev print : Bytes → String
print [] = ""
print (b ∷ bs) = strokes b (print bs)

abbrev begin : Option Bytes → Option Bytes
begin none = none
begin (some bs) = some (0 ∷ bs)

abbrev bump : Option Bytes → Option Bytes
bump none = none
bump (some []) = none
bump (some (b ∷ bs)) = some (suc b ∷ bs)

abbrev read : String → Option Bytes
read String.[] = some []
read (String.◌∷◌ c s) = if nat_eq (code c) b',' then begin (read s) else bump (read s)

read-strokes :
    (n : ℕ) (s : String) (bs : Bytes) → read s ≡ some bs → read (strokes n s) ≡ some (n ∷ bs)
read-strokes zero s bs h = ap begin h
read-strokes (suc n) s bs h = ap bump (read-strokes n s bs h)

read-print : (bs : Bytes) → read (print bs) ≡ some bs
read-print [] = refl
read-print (b ∷ bs) = read-strokes b (print bs) bs (read-print bs)

abbrev same_bytes : Bytes → Bytes → Bool
same_bytes [] [] = true
same_bytes (b ∷ bs) (c ∷ cs) = nat_eq b c && same_bytes bs cs
same_bytes _ _ = false

same_bytes_refl : (bs : Bytes) → same_bytes bs bs ≡ true
same_bytes_refl [] = refl
same_bytes_refl (b ∷ bs) = ground (arith, same_bytes_refl bs)

same_bytes-eq : (bs cs : Bytes) → same_bytes bs cs ≡ true → bs ≡ cs
same_bytes-eq [] [] h = refl
same_bytes-eq [] (c ∷ cs) h = cc
same_bytes-eq (b ∷ bs) [] h = cc
same_bytes-eq (b ∷ bs) (c ∷ cs) h = ground (arith, h, same_bytes-eq bs cs)

abbrev sign_env : Env
sign_env = record env {
  clock = λ n. 5;
  hex_encode = print;
  hex_decode = read;
  ed25519_sign = λ k m. m;
  ed25519_verify = λ k m s. same_bytes s m;
}

crates : Crates sign_env
unfolding to_bytes
crates = record {
  hex = read-print;
  bcs = λ m n h. ground (arith, h);
  key = λ k. refl;
  signature = λ k m. same_bytes_refl m;
}

binding : Binding sign_env
binding k m n h = same_bytes-eq m n h

abbrev kp : EnclaveKeyPair
kp = record { signing_key = 3 ∷ [] }

abbrev to_json : ℕ → Bytes
to_json n = n ∷ []

abbrev made : SignedResponse ℕ
made = record {
  payload_data = 7;
  intent_scope = 2;
  timestamp_ms = 5;
  signature = print (2 ∷ 5 ∷ []);
  enclave_public_key = print (3 ∷ []);
}

made_now : (sign_response sign_env {E = AppError} to_json kp Sign.recall 7 world).0 ≡ ok made
unfolding sign_response now sign public_key_bytes
made_now = refl

sign_response-signed_example :
    (made.payload_data ≡ 7)
    × (made.timestamp_ms ≡ 5 % 2 ^ 64)
    × (made.intent_scope ≡ 2)
    × ((sent_key : Bytes) × (signature : Bytes) × (read made.enclave_public_key ≡ some sent_key)
        × (read made.signature ≡ some signature)
        × (sent_key ≡ 3 ∷ [])
        × (same_bytes signature (2 ∷ 5 ∷ []) ≡ true))
sign_response-signed_example =
    sign_response-signed sign_env to_json kp Sign.recall 7 world made crates made_now

shown_again :
    client_accepts sign_env to_json Sign.recall (record {
      payload_data = 7;
      intent_scope = intent_byte Sign.recall;
      timestamp_ms = 5;
      signature = made.signature;
      enclave_public_key = made.enclave_public_key;
    })
    ≡ some (ok tt)
unfolding client_accepts verify_signature message_of to_bytes intent_byte
shown_again = refl

sign_response-one_intent_example :
    (Sign.recall ≡ Sign.recall)
    × (◌≡◌ {A = ℕ} 5 5)
    × (sign_env.sha256 (to_json 7) ≡ sign_env.sha256 (to_json 7))
sign_response-one_intent_example =
    sign_response-one_intent {E = AppError} sign_env to_json to_json kp Sign.recall Sign.recall 7 7
      5 world crates binding made made_now shown_again

abbrev log : List String
log = "a" ∷ "b" ∷ "c" ∷ []

get_logs-newest_example :
    get_logs (push_all (new 2) log) (some 5)
    ≡ record { lines = last 2 log; count = length (last 2 log) }
get_logs-newest_example = get_logs-newest 2 log (some 5) (omega arith)

newest_lines : last 2 log ≡ "b" ∷ "c" ∷ []
unfolding last
newest_lines = refl

abbrev answer : NsmRequest → NsmResponse
answer (attestation u n k) = document (1 ∷ [])
answer (describe_pcr zero) = pcr (2 ∷ [])
answer (describe_pcr (suc n)) = other "locked"

-- A device that gives the document, and then not its second register
abbrev device : Nsm
device = record { opens = true; process = answer }

get_attestation_real-device_example :
    (openings (get_attestation_real env device key [] "now").1 ≡ 1)
    × (is_ok (get_attestation_real env device key [] "now").0 ≡ false)
    × (closings (get_attestation_real env device key [] "now").1 ≡ 0)
get_attestation_real-device_example = get_attestation_real-device env device key [] "now"

abbrev block : ℕ → Bytes
block zero = []
block (suc n) = 7 ∷ block n

abbrev random : Random
random call = some (block 256)

get_entropy-enough_example :
    (sample : Bytes) × (get_entropy true random 4 300 ≡ some (ok sample))
    × (300 ≤ length sample)
    × (length sample < 556)
    × (length sample % 256 ≡ 0)
get_entropy-enough_example =
    get_entropy-enough random 300 4 (λ call. (block 256, refl, refl)) (omega arith)
