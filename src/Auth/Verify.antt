-- ===== src/Auth/Verify.antt =====
-- `verify_signature` of src/relayer/src/auth.rs, up to the call of the next handler.
use nautilus_memwal_relayer.Prelude.{
  ℕ, ◌*◌, ◌/◌, String, ◌<>◌, Bool, true, false, Option, none, some, [], ◌∷◌, length, Result, ok,
  err, ok_or, unwrap_or, nat_eq, ltb, if◌then◌else◌,
}
use nautilus_memwal_relayer.Types.{Bytes, Config, AuthInfo}
use nautilus_memwal_relayer.Redis.{set_nx}
use nautilus_memwal_relayer.World.Env.{Env}
use nautilus_memwal_relayer.World.Action.{
  Action, ◌>>=◌, ◌>>◌, pure, fail, lift, attempt, mapping_err,
}
use nautilus_memwal_relayer.World.Calls.{now, redis_call}
use nautilus_memwal_relayer.Prelude.Numbers.{parse_i64}
use nautilus_memwal_relayer.Auth.Timestamp.{age_of, in_time}
use nautilus_memwal_relayer.Auth.Resolve.{ResolveError, unresolved, no_answer, resolve_account}

-- A header is read as text; one that is absent or not visible ASCII reads as `none`.
pub record Request : Type 0 where
  pub header : String → Option String
  pub method : String
  pub path_and_query : String
  -- what reading the body gives, the size limit aside
  pub body : Option Bytes

-- A status sent at once, or after the pause of `constant_time_reject` (which is always 401);
-- `never` is a registry scan that the fuel has ended.
pub data Rejection : Type 0 where
  at_once : ℕ → Rejection
  constant_time : Rejection
  never : Rejection

abbrev pub Checked : Type 0 → Type 0
Checked A = Result Rejection A

-- The body limit of `to_bytes`
abbrev pub max_body : ℕ
max_body = 2 * 1024 * 1024

-- The headers that have been read and decoded.
pub record Signed : Type 0 where
  pub public_key_hex : String
  pub public_key : Bytes
  pub signature : Bytes
  pub timestamp : String
  pub nonce : String
  pub account_id_hint : Option String
  pub delegate_key : Option String
  pub seal_session : Option String

-- A test that must hold, or the request is rejected.
abbrev pub ensure : Bool → Rejection → Action Rejection Unit
ensure true r = pure tt
ensure false r = fail r

abbrev pub required : Option String → ℕ → Action Rejection String
required value status = lift (ok_or value (at_once status))

abbrev pub read_body : Option Bytes → Checked Bytes
read_body none = err (at_once 400)
read_body (some body) = if ltb max_body (length body) then err (at_once 400) else ok body

-- `hex::decode`, then the conversion to an array of that length
abbrev pub decode_array : Env → ℕ → String → Checked Bytes
decode_array env size text = elim (env.hex_decode text) [
  | none ↦ err (at_once 401)
  | some bytes ↦ if nat_eq (length bytes) size then ok bytes else err (at_once 401)
]

abbrev pub nonce_key : String → String
nonce_key nonce = "nonce:" <> nonce

abbrev pub was_set : Result String Bool → Bool
was_set (ok set) = set
was_set (err e) = false

module _ (env : Env) where
  -- The canonical message of six fields
  unfoldable pub canonical_message : Request → Signed → Bytes → String
  canonical_message request signed body =
      signed.timestamp
      <> "."
      <> request.method
      <> "."
      <> request.path_and_query
      <> "."
      <> env.hex_encode (env.sha256 body)
      <> "."
      <> signed.nonce
      <> "."
      <> unwrap_or signed.account_id_hint ""

  -- The headers, the nonce's format, the timestamp's window, the key and the signature's length.
  unfoldable pub read_headers : Request → Action Rejection Signed
  read_headers request = do
    public_key_hex ← required (request.header "x-public-key") 401
    signature_hex ← required (request.header "x-signature") 401
    timestamp ← required (request.header "x-timestamp") 401
    nonce ← required (request.header "x-nonce") 426
    ensure (env.is_uuid nonce) constant_time
    seconds ← lift (ok_or (parse_i64 timestamp) (at_once 401))
    millis ← now env
    ensure (in_time (age_of (millis / 1000) seconds)) constant_time
    public_key ← lift (decode_array env 32 public_key_hex)
    ensure (env.is_verifying_key public_key) (at_once 401)
    signature ← lift (decode_array env 64 signature_hex)
    pure (record {
      public_key_hex = public_key_hex;
      public_key = public_key;
      signature = signature;
      timestamp = timestamp;
      nonce = nonce;
      account_id_hint = request.header "x-account-id";
      delegate_key = request.header "x-delegate-key";
      seal_session = request.header "x-seal-session";
    })

  -- `Verifier::verify` over the canonical message
  unfoldable pub signature_holds : Request → Signed → Bytes → Bool
  unfolding canonical_message
  signature_holds request signed body =
      env.ed25519_verify signed.public_key (env.utf8 (canonical_message request signed body))
        signed.signature

  -- `SET nonce:… NX EX 600`; an error counts as a nonce that was seen.
  unfoldable pub claim_nonce : String → Action Rejection Unit
  claim_nonce nonce = do
    set ← attempt (redis_call env (λ at r. set_nx at (nonce_key nonce) (b'1' ∷ []) 600 r))
    ensure (was_set set) constant_time

abbrev pub rejection_of : ResolveError → Rejection
rejection_of (unresolved e) = constant_time
rejection_of no_answer = never

module _ (env : Env) (config : Config) (fuel : ℕ) where
  -- What a verified request is passed on with: the `AuthInfo` extension, and the body again.
  unfoldable pub attach_auth : Signed → Bytes → Action Rejection (AuthInfo × Bytes)
  attach_auth signed body = do
    account ← mapping_err rejection_of (
        resolve_account env config fuel signed.public_key_hex signed.public_key
          signed.account_id_hint)
    pure (
      record {
        public_key = signed.public_key_hex;
        owner = account.1;
        account_id = account.0;
        delegate_key = signed.delegate_key;
        seal_session = signed.seal_session;
      },
      body,
    )

  unfoldable pub claim_and_attach : Signed → Bytes → Action Rejection (AuthInfo × Bytes)
  unfolding claim_nonce attach_auth
  claim_and_attach signed body = do claim_nonce env signed.nonce; attach_auth signed body

  -- From the body on, with the headers
  unfoldable pub check_signed : Request → Signed → Action Rejection (AuthInfo × Bytes)
  unfolding signature_holds claim_and_attach
  check_signed request signed = do
    body ← lift (read_body request.body)
    ensure (signature_holds env request signed body) constant_time
    claim_and_attach signed body

  unfoldable pub verify_signature : Request → Action Rejection (AuthInfo × Bytes)
  unfolding read_headers check_signed
  verify_signature request = do signed ← read_headers env request; check_signed request signed
