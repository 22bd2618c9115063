-- ===== src/Crypto/Error.antt =====
-- `SymmetricKey` and `CryptoError` of crates/seqr-crypto/src/lib.rs.
use seqr.Prelude.{Bytes}

-- 32 bytes; where the length is checked, the check is written out
abbrev pub SymmetricKey : Type 0
SymmetricKey = Bytes

pub data CryptoError : Type 0 where
  decrypt truncated bad_signature bad_key kdf : CryptoError
