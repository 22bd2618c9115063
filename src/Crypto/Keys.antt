-- ===== src/Crypto/Keys.antt =====
-- crates/seqr-crypto/src/keys.rs and group.rs. The bytes that the system's generator gives are
-- arguments.
use seqr.Prelude.{Bytes}
use seqr.Prelude.Result.{Result, ok}
use seqr.Crypto.Error.{SymmetricKey, CryptoError}
use seqr.Crypto.Primitives.{Primitives}

pub record Identity : Type 0 where
  pub agreement_secret : Bytes
  pub signing_key : Bytes

pub record PublicIdentity : Type 0 where
  pub agreement_public : Bytes
  pub signing_public : Bytes

unfoldable pub generate : Bytes → Bytes → Identity
generate agreement_bytes signing_bytes = record {
  agreement_secret = agreement_bytes;
  signing_key = signing_bytes;
}

unfoldable pub from_secret_bytes : Bytes → Bytes → Result CryptoError Identity
from_secret_bytes agreement signing =
    ok (record { agreement_secret = agreement; signing_key = signing })

unfoldable pub secret_bytes : Identity → Bytes × Bytes
secret_bytes me = (me.agreement_secret, me.signing_key)

unfoldable pub generate_group_key : Bytes → SymmetricKey
generate_group_key random = random

module _ ⦃p : Primitives⦄ where
  open p use {x25519_public, ed25519_public}

  unfoldable pub public : Identity → PublicIdentity
  public me = record {
    agreement_public = x25519_public me.agreement_secret;
    signing_public = ed25519_public me.signing_key;
  }
