-- ===== src/Enclave/SignRules.antt =====
-- What a signature of `sign_response` (src/relayer/src/enclave.rs) says, and to whom.
use nautilus_memwal_relayer.Prelude.{
  ℕ, ◌%◌, ◌^◌, ◌≡◌, refl, sym, ◌∙◌, inl, inr, false, Bool-cases, String, Bool, true, Option, some,
  none, Result, ok, err, arith,
}
use nautilus_memwal_relayer.Types.{Bytes}
use nautilus_memwal_relayer.World.State.{World}
use nautilus_memwal_relayer.World.Env.{Env}
use nautilus_memwal_relayer.World.Calls.{now}
use nautilus_memwal_relayer.Enclave.KeyPair.{
  EnclaveKeyPair, public_key_bytes, sign, verify_signature,
}
use nautilus_memwal_relayer.Enclave.Sign.{
  Intent, remember, recall, remember_manual, recall_manual, analyze, ask, restore, intent_byte,
  IntentMessage, SignedResponse, to_bytes, message_of, sign_response,
}

abbrev check_decoded :
    Env → Bytes → Option Bytes → Option Bytes → Option (Result {0, 0} String Unit)
check_decoded env message none signature = none
check_decoded env message (some key) none = none
check_decoded env message (some key) (some signature) =
    some (verify_signature env key message signature)

-- What a client does with a signed response: it decodes the key and the signature, builds the
-- message of that intent again, and checks the signature.
unfoldable pub client_accepts :
    {T : Type 0}
    → Env
    → (T → Bytes)
    → Intent
    → SignedResponse T
    → Option (Result {0, 0} String Unit)
client_accepts env to_json intent response =
    let message =
      message_of env to_json (intent_byte intent) response.timestamp_ms response.payload_data in
    check_decoded env (to_bytes env message) (env.hex_decode response.enclave_public_key)
      (env.hex_decode response.signature)

-- Documented behaviour of the crates `hex`, `bcs` and `ed25519_dalek`: decoding undoes encoding,
-- the encoding of a message determines it, and a signature verifies under its key.
pub record Crates (env : Env) : Type 0 where
  pub hex : (bytes : Bytes) → env.hex_decode (env.hex_encode bytes) ≡ some bytes
  pub bcs : (m n : IntentMessage) → to_bytes env m ≡ to_bytes env n → m ≡ n
  pub key : (signing_key : Bytes) → env.is_verifying_key (env.ed25519_public signing_key) ≡ true
  pub signature :
      (signing_key message : Bytes)
      → env.ed25519_verify
          (env.ed25519_public signing_key)
          message
          (env.ed25519_sign signing_key message)
        ≡ true

-- A signature made for one message verifies for no other under its key.
abbrev pub Binding : Env → Type 0
Binding env =
    (signing_key m n : Bytes)
    → env.ed25519_verify (env.ed25519_public signing_key) n (env.ed25519_sign signing_key m) ≡ true
    → m ≡ n

abbrev verdict : Bool → Option (Result {0, 0} String Unit)
verdict true = some (ok tt)
verdict false = some (err "Signature verification failed")

verdict-eq-ok : (b : Bool) → verdict b ≡ some (ok tt) → b ≡ true
verdict-eq-ok true h = refl
verdict-eq-ok false h = cc

message-fields :
    {T U : Type 0} (env : Env) (to_json : T → Bytes) (to_json' : U → Bytes) {m n at at' : ℕ}
    {value : T} {shown : U}
    → message_of env to_json m at value ≡ message_of env to_json' n at' shown
    → (m ≡ n) × (at ≡ at') × (env.sha256 (to_json value) ≡ env.sha256 (to_json' shown))
unfolding message_of
message-fields env to_json to_json' h = (cc, cc, cc)

-- What a client says to a signature of this enclave
client_accepts-signed :
    {T : Type 0} (env : Env) (to_json : T → Bytes) (intent : Intent) (value : T) (scope at : ℕ)
    (signing_key message : Bytes)
    → Crates env
    → client_accepts env to_json intent (record {
      payload_data = value;
      intent_scope = scope;
      timestamp_ms = at;
      signature = env.hex_encode (env.ed25519_sign signing_key message);
      enclave_public_key = env.hex_encode (env.ed25519_public signing_key);
    })
      ≡ verdict (
          env.ed25519_verify
            (env.ed25519_public signing_key)
            (to_bytes env (message_of env to_json (intent_byte intent) at value))
            (env.ed25519_sign signing_key message))
unfolding client_accepts verify_signature
client_accepts-signed env to_json intent value scope at signing_key message crates =
    let verified =
      env.ed25519_verify (env.ed25519_public signing_key)
        (to_bytes env (message_of env to_json (intent_byte intent) at value))
        (env.ed25519_sign signing_key message) in
    rw
      (
        crates.hex (env.ed25519_public signing_key),
        crates.hex (env.ed25519_sign signing_key message),
        crates.key signing_key,
      )
      (elim (Bool-cases verified) [ inl holds ↦ rw holds refl | inr fails ↦ rw fails refl ])

-- The place of an endpoint among those that sign
abbrev pub scope_of : Intent → ℕ
scope_of remember = 1
scope_of recall = 2
scope_of remember_manual = 3
scope_of recall_manual = 4
scope_of analyze = 5
scope_of ask = 6
scope_of restore = 7

scope_of-intent_byte : (i : Intent) → intent_byte i ≡ scope_of i
unfolding intent_byte
scope_of-intent_byte i = ground arith

-- No two endpoints share an intent byte.
pub intent_byte-injective : (i j : Intent) → intent_byte i ≡ intent_byte j → i ≡ j
unfolding intent_byte
intent_byte-injective i j h = ground arith

module _ {E T : Type 0} (env : Env) (to_json : T → Bytes) (kp : EnclaveKeyPair) where
  -- Whatever is signed, the response has the value and the time of signing, its two texts are the
  -- hexadecimal forms of the enclave's key and of a signature, and under this key the signature holds
  -- over the BCS encoding of the response's own intent scope, its own time, and the SHA-256 of the JSON
  -- of its own data; and the scopes run from 1 to 7 in the order of the endpoints.
  pub sign_response-signed :
      (intent : Intent) (value : T) (w : World) (response : SignedResponse T)
      → Crates env
      → (sign_response env {E = E} to_json kp intent value w).0 ≡ ok response
      → (response.payload_data ≡ value)
        × (response.timestamp_ms ≡ env.clock w.calls % 2 ^ 64)
        × (response.intent_scope ≡ scope_of intent)
        × ((key : Bytes) × (signature : Bytes) × (env.hex_decode response.enclave_public_key
              ≡ some key)
            × (env.hex_decode response.signature ≡ some signature)
            × (key ≡ env.ed25519_public kp.signing_key)
            × (env.ed25519_verify key
                  (env.bcs_intent response.intent_scope response.timestamp_ms
                    (env.sha256 (to_json response.payload_data)))
                  signature
                ≡ true))
  unfolding sign_response now sign public_key_bytes to_bytes message_of intent_byte
  sign_response-signed intent value w response crates made =
      let at : ℕ = env.clock w.calls % 2 ^ 64 in
      let message = env.bcs_intent (intent_byte intent) at (env.sha256 (to_json value)) in
      let same : response ≡ record {
        payload_data = value;
        intent_scope = intent_byte intent;
        timestamp_ms = at;
        signature = env.hex_encode (env.ed25519_sign kp.signing_key message);
        enclave_public_key = env.hex_encode (env.ed25519_public kp.signing_key);
      } =
        cc in
      rw same (
        refl,
        refl,
        scope_of-intent_byte intent,
        (
          env.ed25519_public kp.signing_key,
          env.ed25519_sign kp.signing_key message,
          crates.hex (env.ed25519_public kp.signing_key),
          crates.hex (env.ed25519_sign kp.signing_key message),
          refl,
          crates.signature kp.signing_key message,
        ),
      )

module _ {E T U : Type 0} (env : Env) (to_json : T → Bytes) (to_json' : U → Bytes)
    (kp : EnclaveKeyPair) where
  -- A signature that the enclave made for one response can be shown with another only as that
  -- response: whatever endpoint, time and value a client is given beside it, if the client accepts
  -- them, then the endpoint and the time are the signed ones and the hash of the value's JSON is the
  -- signed one.
  pub sign_response-one_intent :
      (i j : Intent) (value : T) (shown : U) (at : ℕ) (w : World)
      → Crates env
      → Binding env
      → (response : SignedResponse T)
      → (sign_response env {E = E} to_json kp i value w).0 ≡ ok response
      → client_accepts env to_json' j (record {
        payload_data = shown;
        intent_scope = intent_byte j;
        timestamp_ms = at;
        signature = response.signature;
        enclave_public_key = response.enclave_public_key;
      })
        ≡ some (ok tt)
      → (i ≡ j)
        × (at ≡ response.timestamp_ms)
        × (env.sha256 (to_json' shown) ≡ env.sha256 (to_json value))
  unfolding sign_response now sign public_key_bytes
  sign_response-one_intent i j value shown at w crates binding response made accepted =
      let signed : ℕ = env.clock w.calls % 2 ^ 64 in
      let message = to_bytes env (message_of env to_json (intent_byte i) signed value) in
      let claimed = to_bytes env (message_of env to_json' (intent_byte j) at shown) in
      let signature : response.signature
          ≡ env.hex_encode (env.ed25519_sign kp.signing_key message) =
        cc in
      let key : response.enclave_public_key ≡ env.hex_encode (env.ed25519_public kp.signing_key) =
        cc in
      let then_signed : response.timestamp_ms ≡ signed = cc in
      let said =
        client_accepts-signed env to_json' j shown (intent_byte j) at kp.signing_key message
          crates in
      let verified =
        verdict-eq-ok
          (env.ed25519_verify (env.ed25519_public kp.signing_key) claimed
            (env.ed25519_sign kp.signing_key message))
          (sym said ∙ rw (← signature, ← key) accepted) in
      let fields =
        message-fields env to_json to_json'
          (crates.bcs _ _ (binding kp.signing_key message claimed verified)) in
      (intent_byte-injective i j fields.0, sym fields.1 ∙ sym then_signed, sym fields.2)
