-- ===== src/Clients/Seal.antt =====
-- src/relayer/src/seal.rs: encryption and decryption by the sidecar.
use nautilus_memwal_relayer.Prelude.{String, ◌<>◌, map_err}
use nautilus_memwal_relayer.Types.{AppError, internal, Bytes, Config}
use nautilus_memwal_relayer.World.Env
use nautilus_memwal_relayer.World.Env.{Env}
use nautilus_memwal_relayer.World.Action.{Action, ◌>>=◌, lift}
use nautilus_memwal_relayer.World.Calls.{send}
use nautilus_memwal_relayer.Clients.Replies.{
  receive, sidecar_failed, json_body, sidecar_request, internal_at,
}

module _ (env : Env) (config : Config) where
  unfoldable pub seal_encrypt : Bytes → String → String → Action AppError Bytes
  seal_encrypt data_bytes owner package_id = do
    answer ← send env (
        sidecar_request config "/seal/encrypt"
          (Env.seal_encrypt (env.base64_encode data_bytes) owner package_id))
    encrypted_data ← lift (
        receive
          (λ e.
            internal ("Sidecar seal/encrypt request failed: " <> e <> ". Is the sidecar running?"))
          (sidecar_failed env "seal encrypt failed: ")
          (json_body "Failed to parse seal/encrypt response: " env.parse_encrypted) answer)
    lift (
        map_err (internal_at "Failed to decode encrypted base64: ")
          (env.base64_decode encrypted_data))

  unfoldable pub seal_decrypt : Bytes → String → String → String → Action AppError Bytes
  seal_decrypt encrypted private_key package_id account_id = do
    answer ← send env (
        sidecar_request config "/seal/decrypt"
          (Env.seal_decrypt (env.base64_encode encrypted) private_key package_id account_id))
    decrypted_data ← lift (
        receive
          (λ e.
            internal ("Sidecar seal/decrypt request failed: " <> e <> ". Is the sidecar running?"))
          (sidecar_failed env "seal decrypt failed: ")
          (json_body "Failed to parse seal/decrypt response: " env.parse_decrypted) answer)
    lift (
        map_err (internal_at "Failed to decode decrypted base64: ")
          (env.base64_decode decrypted_data))
