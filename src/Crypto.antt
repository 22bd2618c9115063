-- ===== src/Crypto.antt =====
-- crates/seqr-crypto/src/lib.rs: the key type and the errors of the cryptographic core, over the
-- crates that it calls.
pub mod Primitives
pub mod Error
pub mod Aead
pub mod Keys
pub mod Agreement
pub mod Sign
pub mod Kdf
pub mod Fingerprint
