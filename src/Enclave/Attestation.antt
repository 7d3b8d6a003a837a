-- ===== src/Enclave/Attestation.antt =====
-- src/nautilus-enclave/src/nsm.rs, and `/get_attestation` of src/relayer/src/enclave.rs. The device is
-- a parameter that answers requests; what is done with its handle is written down as a trace.
use nautilus_memwal_relayer.Prelude.{
  ℕ, zero, suc, String, ◌<>◌, Bool, Option, none, some, List, [], ◌∷◌, ◌++◌, Result, ok, err,
  is_empty, show, if◌then◌else◌,
}
use nautilus_memwal_relayer.Types.{Bytes}
use nautilus_memwal_relayer.World.Env.{Env}
use nautilus_memwal_relayer.Enclave.KeyPair.{EnclaveKeyPair, public_key_bytes}

pub record AttestationDoc : Type 0 where
  pub pcr0 : String
  pub pcr1 : String
  pub pcr2 : String
  pub public_key : String
  pub timestamp : String
  pub raw_cbor_hex : String

pub data NsmRequest : Type 0 where
  attestation : (user_data nonce public_key : Option Bytes) → NsmRequest
  describe_pcr : ℕ → NsmRequest

pub data NsmResponse : Type 0 where
  document : Bytes → NsmResponse
  pcr : Bytes → NsmResponse
  refused : String → NsmResponse
  other : String → NsmResponse

-- The library `aws_nitro_enclaves_nsm_api`: whether the device opens, and its answers.
pub record Nsm : Type 0 where
  pub opens : Bool
  pub process : NsmRequest → NsmResponse

-- What is done with the device's handle
pub data Step : Type 0 where
  opened closed : Step
  asked : NsmRequest → Step

-- A result, after those steps
abbrev pub Traced : Type 0 → Type 0
Traced A = Result String A × List Step

module _ {A B : Type 0} where
  abbrev pub follow : Result String A → (A → Traced B) → Traced B
  follow (ok a) f = f a
  follow (err e) f = (err e, [])

  infixl 10 ◌>>=◌ ◌>>◌
  abbrev pub ◌>>=◌ : Traced A → (A → Traced B) → Traced B
  ◌>>=◌ m f = let next = follow m.0 f in (next.0, m.1 ++ next.1)

  abbrev pub ◌>>◌ : Traced A → Traced B → Traced B
  ◌>>◌ m n = let next = follow m.0 (λ _. n) in (next.0, m.1 ++ next.1)

abbrev pub step : Step → Traced Unit
step s = (ok tt, s ∷ [])

abbrev pub failing : {A : Type 0} → String → Traced A
failing e = (err e, [])

module _ (env : Env) (nsm : Nsm) where
  unfoldable pub ask : NsmRequest → Traced NsmResponse
  ask request = (ok (nsm.process request), asked request ∷ [])

  abbrev pcr_text : ℕ → NsmResponse → Result String String
  pcr_text index (pcr value) = ok (env.hex_encode value)
  pcr_text index (refused e) = err ("Failed to read PCR" <> show index <> ": " <> e)
  pcr_text index (document d) = err ("Unexpected response for PCR" <> show index <> ": Attestation")
  pcr_text index (other e) = err ("Unexpected response for PCR" <> show index <> ": " <> e)

  unfoldable pub read_pcr : ℕ → Traced String
  unfolding ask
  read_pcr index = do response ← ask (describe_pcr index); (pcr_text index response, [])

  -- The `match` on the answer. An error of a PCR leaves before the device is closed.
  abbrev pub after_request : Bytes → String → NsmResponse → Traced AttestationDoc
  after_request public_key timestamp (document d) = do
    pcr0 ← read_pcr 0
    pcr1 ← read_pcr 1
    pcr2 ← read_pcr 2
    step closed
    (
      ok (record {
        pcr0 = pcr0;
        pcr1 = pcr1;
        pcr2 = pcr2;
        public_key = env.hex_encode public_key;
        timestamp = timestamp;
        raw_cbor_hex = env.hex_encode d;
      }),
      [],
    )
  after_request public_key timestamp (refused e) =
      step closed >> failing ("NSM attestation request failed: " <> e)
  after_request public_key timestamp (pcr value) =
      step closed >> failing "Unexpected NSM response: DescribePCR"
  after_request public_key timestamp (other e) =
      step closed >> failing ("Unexpected NSM response: " <> e)

  -- With the feature `nsm`
  unfoldable pub get_attestation_real : Bytes → Bytes → String → Traced AttestationDoc
  unfolding read_pcr ask
  get_attestation_real public_key nonce timestamp =
      if nsm.opens
      then (do
        step opened
        response ←
            ask (attestation (if is_empty nonce then none else some nonce) none (some public_key))
        after_request public_key timestamp response)
      else failing "Failed to open NSM device. Are you running inside a Nitro Enclave?"

abbrev pub replicate : ℕ → ℕ → Bytes
replicate zero b = []
replicate (suc n) b = b ∷ replicate n b

-- Without the feature: `to_json` prints the mock document of those four texts.
unfoldable pub get_attestation_mock :
    Env
    → (List (String × String) → Result String Bytes)
    → Bytes
    → Bytes
    → String
    → Result String AttestationDoc
get_attestation_mock env to_json public_key nonce timestamp =
    let mock_pcr0 = env.hex_encode (replicate 48 0xAA) in
    let mock_pcr1 = env.hex_encode (replicate 48 0xBB) in
    let mock_pcr2 = env.hex_encode (replicate 48 0xCC) in
    let mock_doc =
      ("0", mock_pcr0)
      ∷ ("1", mock_pcr1)
      ∷ ("2", mock_pcr2)
      ∷ ("public_key", env.hex_encode public_key)
      ∷ ("nonce", env.hex_encode nonce)
      ∷ [] in
    elim (to_json mock_doc) [
      | ok bytes ↦ ok (record {
        pcr0 = mock_pcr0;
        pcr1 = mock_pcr1;
        pcr2 = mock_pcr2;
        public_key = env.hex_encode public_key;
        timestamp = timestamp;
        raw_cbor_hex = env.hex_encode bytes;
      })
      | err e ↦ err "Failed to serialize mock attestation doc"
    ]

-- `/get_attestation`, over the library's function of the key and the nonce. The error is the text of
-- `EnclaveError::GenericError`, which is sent with status 500.
unfoldable pub get_attestation :
    Env
    → (Bytes → Bytes → Result {0, 0} String AttestationDoc)
    → EnclaveKeyPair
    → Result {0, 0} String String
get_attestation env library kp = elim (library (public_key_bytes env kp) []) [
  | ok doc ↦ ok doc.raw_cbor_hex
  | err e ↦ err ("attestation failed: " <> e)
]
