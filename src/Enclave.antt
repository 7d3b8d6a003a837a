-- ===== src/Enclave.antt =====
-- src/relayer/src/enclave.rs and the library src/nautilus-enclave: the enclave's key and its
-- signatures, the attestation document, and the log buffer; and the entropy that src/aws and
-- src/system put into the kernel.
pub mod KeyPair
pub mod Attestation
pub mod DeviceRules
pub mod Sign
pub mod SignRules
pub mod Logs
pub mod LogRules
pub mod Entropy
pub mod EntropyRules
