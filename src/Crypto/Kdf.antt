-- ===== src/Crypto/Kdf.antt =====
-- crates/seqr-crypto/src/kdf.rs.
use seqr.Prelude.{Bytes}
use seqr.Prelude.Result.{Result, ok_or}
use seqr.Crypto.Error.{SymmetricKey, CryptoError, kdf}
use seqr.Crypto.Primitives.{Primitives}

unfoldable pub generate_salt : Bytes → Bytes
generate_salt random = random

module _ ⦃p : Primitives⦄ where
  unfoldable pub derive_vault_key : Bytes → Bytes → Result CryptoError SymmetricKey
  derive_vault_key password salt = ok_or (p.argon2id password salt) kdf
