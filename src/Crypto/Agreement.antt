-- ===== src/Crypto/Agreement.antt =====
-- crates/seqr-crypto/src/agreement.rs.
use seqr.Prelude.{Bytes, text, ◌≡◌, ap}
use seqr.Crypto.Error.{SymmetricKey}
use seqr.Crypto.Keys.{Identity, public}
use seqr.Crypto.Primitives.{Primitives, SchemeLaws}

abbrev pub hkdf_info : Bytes
hkdf_info = text "seqr/v1/pairwise-key"

module _ ⦃p : Primitives⦄ where
  open p use {diffie_hellman, hkdf_sha256_32}

  unfoldable pub derive_pairwise : Bytes → Bytes → SymmetricKey
  derive_pairwise my_secret their_public =
      hkdf_sha256_32 (diffie_hellman my_secret their_public) hkdf_info

  unfoldable pub derive_pairwise_bytes : Bytes → Bytes → SymmetricKey
  unfolding derive_pairwise
  derive_pairwise_bytes my_secret their_public = derive_pairwise my_secret their_public

  -- Two identities derive the same key, each from its own secret and the other's public half.
  pub derive_pairwise_agrees :
      SchemeLaws p
      → (alice bob : Identity)
      → derive_pairwise_bytes alice.agreement_secret (public bob).agreement_public
        ≡ derive_pairwise_bytes bob.agreement_secret (public alice).agreement_public
  unfolding derive_pairwise_bytes public
  derive_pairwise_agrees laws alice bob =
      ap (λ s. hkdf_sha256_32 s hkdf_info)
        (laws.dh-comm alice.agreement_secret bob.agreement_secret)
