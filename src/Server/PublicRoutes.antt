-- ===== src/Server/PublicRoutes.antt =====
-- The routes of src/relayer/src/main.rs that no layer guards: the public ones and those of the enclave.
use nautilus_memwal_relayer.Prelude.{ℕ, String, Option, Result, ok, err, ◌≡◌, refl, ◌⊎◌, inl, inr}
use nautilus_memwal_relayer.Types.{AppError, Bytes, Config, error_status}
use nautilus_memwal_relayer.World.State.{World}
use nautilus_memwal_relayer.World.Env.{Env}
use nautilus_memwal_relayer.World.Calls.{spend, forward}
use nautilus_memwal_relayer.Routes.Public.{
  HealthResponse, ConfigResponse, ProxyResponse, health, get_config, sponsor_proxy,
  sponsor_execute_proxy,
}
use nautilus_memwal_relayer.Enclave.KeyPair.{EnclaveKeyPair}
use nautilus_memwal_relayer.Enclave.Attestation.{AttestationDoc, get_attestation}
use nautilus_memwal_relayer.Enclave.Logs.{
  LogBuffer, EnclaveHealthResponse, LogsResponse, enclave_health, get_logs,
}

-- A proxy with its body, and `/logs` with the number of lines asked for
pub data PublicRoute : Type 0 where
  health_route config_route attestation_route enclave_health_route : PublicRoute
  sponsor_route sponsor_execute_route : Bytes → PublicRoute
  logs_route : Option ℕ → PublicRoute

abbrev pub path_of : PublicRoute → String
path_of health_route = "/health"
path_of config_route = "/config"
path_of attestation_route = "/get_attestation"
path_of enclave_health_route = "/enclave_health"
path_of (sponsor_route body) = "/sponsor"
path_of (sponsor_execute_route body) = "/sponsor/execute"
path_of (logs_route requested) = "/logs"

pub data PublicResponse : Type 0 where
  healthy : HealthResponse → PublicResponse
  configured : ConfigResponse → PublicResponse
  proxied : ProxyResponse → PublicResponse
  attested : (attestation : String) → PublicResponse
  enclave_healthy : EnclaveHealthResponse → PublicResponse
  logged : LogsResponse → PublicResponse
  failed : (code : ℕ) → AppError → PublicResponse
  -- `EnclaveError`
  enclave_failed : (code : ℕ) → (message : String) → PublicResponse

-- `EnclaveError::into_response`
abbrev pub error_response : String → PublicResponse
error_response message = enclave_failed 500 message

-- What is fixed at the start, and the attestation of src/nautilus-enclave, with or without the device
pub record Fixed : Type 0 where
  pub version : String
  pub network : String
  pub kp : EnclaveKeyPair
  pub logs : LogBuffer
  pub attest : Bytes → Bytes → Result {0, 0} String AttestationDoc

abbrev proxy_response : Result AppError ProxyResponse × World → PublicResponse × World
proxy_response (ok response, w) = (proxied response, w)
proxy_response (err e, w) = (failed (error_status e) e, w)

abbrev attestation_response : Result {0, 0} String String → PublicResponse
attestation_response (ok attestation) = attested attestation
attestation_response (err e) = error_response e

module _ (env : Env) (config : Config) (fixed : Fixed) where
  unfoldable pub serve_public : PublicRoute → World → PublicResponse × World
  unfolding sponsor_proxy sponsor_execute_proxy
  serve_public health_route w = (healthy (health fixed.version), w)
  serve_public config_route w = (configured (get_config config fixed.network), w)
  serve_public attestation_route w =
      (attestation_response (get_attestation env fixed.attest fixed.kp), w)
  serve_public enclave_health_route w = (enclave_healthy (enclave_health env fixed.kp), w)
  serve_public (sponsor_route body) w = proxy_response (sponsor_proxy env config body w)
  serve_public (sponsor_execute_route body) w =
      proxy_response (sponsor_execute_proxy env config body w)
  serve_public (logs_route requested) w = (logged (get_logs fixed.logs requested), w)

  proxy-state : (made : Result AppError ProxyResponse × World) → (proxy_response made).1 ≡ made.1
  proxy-state (ok response, w) = refl
  proxy-state (err e, w) = refl

  -- A request to such a route changes nothing, but for the one call by which a proxy forwards it.
  serve_public-state :
      (route : PublicRoute) (w : World)
      → ((serve_public route w).1 ≡ w) ⊎ ((serve_public route w).1 ≡ spend w)
  unfolding serve_public forward
  serve_public-state health_route w = inl refl
  serve_public-state config_route w = inl refl
  serve_public-state attestation_route w = inl refl
  serve_public-state enclave_health_route w = inl refl
  serve_public-state (sponsor_route body) w = inr (proxy-state (sponsor_proxy env config body w))
  serve_public-state (sponsor_execute_route body) w =
      inr (proxy-state (sponsor_execute_proxy env config body w))
  serve_public-state (logs_route requested) w = inl refl
