-- ===== src/Enclave/DeviceRules.antt =====
-- When src/nautilus-enclave/src/nsm.rs closes the security module's device.
use nautilus_memwal_relayer.Prelude.{
  ℕ, suc, ◌≡◌, String, Bool, true, false, List, [], ◌∷◌, Result, ok, err, ◌&&◌, ◌||◌, not, none,
  some, is_empty, arith, if◌then◌else◌,
}
use nautilus_memwal_relayer.Types.{Bytes}
use nautilus_memwal_relayer.World.Env.{Env}
use nautilus_memwal_relayer.Enclave.Attestation.{
  Nsm, NsmResponse, document, pcr, Step, opened, closed, asked, get_attestation_real, read_pcr, ask,
  attestation, describe_pcr,
}

-- How often the handle was opened, and how often closed
unfoldable pub openings : List Step → ℕ
openings [] = 0
openings (opened ∷ steps) = suc (openings steps)
openings (closed ∷ steps) = openings steps
openings (asked r ∷ steps) = openings steps

unfoldable pub closings : List Step → ℕ
closings [] = 0
closings (opened ∷ steps) = closings steps
closings (closed ∷ steps) = suc (closings steps)
closings (asked r ∷ steps) = closings steps

abbrev pub readable : NsmResponse → Bool
readable (pcr value) = true
readable _ = false

abbrev pub is_document : NsmResponse → Bool
is_document (document d) = true
is_document _ = false

abbrev pub is_ok {ℓ} : {A : Type ℓ} → Result {ℓ, 0} String A → Bool
is_ok (ok a) = true
is_ok (err e) = false

-- The device's answer to the request for the document
abbrev pub first_answer : Nsm → Bytes → Bytes → NsmResponse
first_answer nsm public_key nonce =
    nsm.process (attestation (if is_empty nonce then none else some nonce) none (some public_key))

abbrev pub pcrs_readable : Nsm → Bool
pcrs_readable nsm =
    readable (nsm.process (describe_pcr 0))
    && readable (nsm.process (describe_pcr 1))
    && readable (nsm.process (describe_pcr 2))

-- A device that opens is opened once, and a document is given exactly when it answers with one and
-- its three registers can be read. It is closed once, except where it gives the document and a
-- register cannot be read: then it is not closed at all.
pub get_attestation_real-device :
    (env : Env) (nsm : Nsm) (public_key nonce : Bytes) (timestamp : String)
    → let made = get_attestation_real env nsm public_key nonce timestamp in
      let answer = first_answer nsm public_key nonce in
      (openings made.1 ≡ (if nsm.opens then 1 else 0))
      × (is_ok made.0 ≡ (nsm.opens && is_document answer && pcrs_readable nsm))
      × (closings made.1
          ≡ (if nsm.opens && (not (is_document answer) || pcrs_readable nsm) then 1 else 0))
unfolding get_attestation_real openings closings read_pcr ask
get_attestation_real-device env nsm public_key nonce timestamp = ground arith
