-- ===== src/Enclave/KeyPair.antt =====
-- src/nautilus-enclave/src/crypto.rs. `ed25519_dalek` is a parameter; a key is its 32 bytes.
use nautilus_memwal_relayer.Prelude.{String, Result, ok, err, if◌then◌else◌}
use nautilus_memwal_relayer.Types.{Bytes}
use nautilus_memwal_relayer.World.Env.{Env}
use nautilus_memwal_relayer.World.Action.{Action}
use nautilus_memwal_relayer.World.Calls.{spend}

pub record EnclaveKeyPair : Type 0 where
  pub signing_key : Bytes

module _ (env : Env) where
  unfoldable pub generate : {E : Type 0} → Action E EnclaveKeyPair
  generate w = (ok (record { signing_key = env.random_key w.calls }), spend w)

  unfoldable pub public_key_bytes : EnclaveKeyPair → Bytes
  public_key_bytes kp = env.ed25519_public kp.signing_key

  unfoldable pub sign : EnclaveKeyPair → Bytes → Bytes
  sign kp payload = env.ed25519_sign kp.signing_key payload

  -- The error is the text of its outermost context.
  unfoldable pub verify_signature : Bytes → Bytes → Bytes → Result {0, 0} String Unit
  verify_signature public_key payload signature =
      if env.is_verifying_key public_key
      then if env.ed25519_verify public_key payload signature
        then ok tt
        else err "Signature verification failed"
      else err "Invalid Ed25519 public key"
