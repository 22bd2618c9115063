-- ===== src/Crypto/Sign.antt =====
-- crates/seqr-crypto/src/sign.rs.
use seqr.Prelude.{Bytes, ◌≡◌}
use seqr.Prelude.Result.{Result, ok, ensure, ◌>>◌}
use seqr.Crypto.Error.{CryptoError, bad_signature, bad_key}
use seqr.Crypto.Primitives.{Primitives, SchemeLaws}

module _ ⦃p : Primitives⦄ where
  open p use {ed25519_public, ed25519_sign, ed25519_valid_key, ed25519_verify}

  unfoldable pub sign : Bytes → Bytes → Bytes
  sign key msg = ed25519_sign key msg

  unfoldable pub verify : Bytes → Bytes → Bytes → Result CryptoError (Unit {0})
  verify public msg sig = ensure (ed25519_verify public msg sig) bad_signature

  unfoldable pub verify_raw : Bytes → Bytes → Bytes → Result CryptoError (Unit {0})
  unfolding verify
  verify_raw public_bytes msg sig = do
    ensure (ed25519_valid_key public_bytes) bad_key
    verify public_bytes msg sig

  pub verify_raw-sign :
      SchemeLaws p → (sk msg : Bytes) → verify_raw (ed25519_public sk) msg (sign sk msg) ≡ ok tt
  unfolding verify_raw sign
  verify_raw-sign laws sk msg = rw (laws.public-valid sk) (rw (laws.verify-sign sk msg))
