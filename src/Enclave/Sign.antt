-- ===== src/Enclave/Sign.antt =====
-- The intents and `sign_response` of src/relayer/src/enclave.rs.
use nautilus_memwal_relayer.Prelude.{ℕ, ◌%◌, ◌^◌, String}
use nautilus_memwal_relayer.Types.{Bytes}
use nautilus_memwal_relayer.World.Env.{Env}
use nautilus_memwal_relayer.World.Action.{Action, ◌>>=◌, pure}
use nautilus_memwal_relayer.World.Calls.{now}
use nautilus_memwal_relayer.Enclave.KeyPair.{EnclaveKeyPair, public_key_bytes, sign}

-- The endpoints that sign
pub data Intent : Type 0 where
  remember recall remember_manual recall_manual analyze ask restore : Intent

-- The constants `INTENT_…`
unfoldable pub intent_byte : Intent → ℕ
intent_byte remember = 1
intent_byte recall = 2
intent_byte remember_manual = 3
intent_byte recall_manual = 4
intent_byte analyze = 5
intent_byte ask = 6
intent_byte restore = 7

pub record IntentMessage : Type 0 where
  pub intent : ℕ
  pub timestamp_ms : ℕ
  pub payload : Bytes

pub record SignedResponse (T : Type 0) : Type 0 where
  pub payload_data : T
  pub intent_scope : ℕ
  pub timestamp_ms : ℕ
  pub signature : String
  pub enclave_public_key : String

module _ (env : Env) where
  -- `bcs::to_bytes`
  unfoldable pub to_bytes : IntentMessage → Bytes
  to_bytes m = env.bcs_intent m.intent m.timestamp_ms m.payload

  -- `to_json` is `serde_json::to_vec` at the type of the response.
  unfoldable pub message_of : {T : Type 0} → (T → Bytes) → ℕ → ℕ → T → IntentMessage
  message_of to_json intent timestamp_ms value = record {
    intent = intent;
    timestamp_ms = timestamp_ms;
    payload = env.sha256 (to_json value);
  }

  unfoldable pub sign_response :
      {E T : Type 0} → (T → Bytes) → EnclaveKeyPair → Intent → T → Action E (SignedResponse T)
  unfolding to_bytes message_of intent_byte
  sign_response to_json kp intent value = do
    millis ← now env
    let timestamp_ms = millis % 2 ^ 64
    let signed_bytes = to_bytes (message_of to_json (intent_byte intent) timestamp_ms value)
    pure (record {
      payload_data = value;
      intent_scope = intent_byte intent;
      timestamp_ms = timestamp_ms;
      signature = env.hex_encode (sign env kp signed_bytes);
      enclave_public_key = env.hex_encode (public_key_bytes env kp);
    })
