-- ===== src/Crypto/Aead.antt =====
-- crates/seqr-crypto/src/aead.rs. The random nonce is an argument.
use seqr.Prelude.{
  ℕ, ◌≡◌, Bytes, length, take, drop, ◌++◌, ltb, if◌then◌else◌, arith, take-length-append,
  drop-length-append, length-append, subst, ap, ◌∙◌, ◌<◌,
}
use seqr.Prelude.Result.{Result, ok, err, ok_or}
use seqr.Crypto.Error.{SymmetricKey, CryptoError, decrypt, truncated}
use seqr.Crypto.Primitives.{Primitives, SchemeLaws}

abbrev pub nonce_len : ℕ
nonce_len = 12

module _ ⦃p : Primitives⦄ where
  open p use {chacha_encrypt, chacha_decrypt}

  unfoldable pub seal : Bytes → SymmetricKey → Bytes → Bytes → Bytes
  seal nonce key plaintext aad = nonce ++ chacha_encrypt key nonce plaintext aad

  -- `open` of the source
  unfoldable pub open_sealed : SymmetricKey → Bytes → Bytes → Result CryptoError Bytes
  open_sealed key sealed aad =
      if ltb (length sealed) nonce_len
      then err truncated
      else ok_or (chacha_decrypt key (take nonce_len sealed) (drop nonce_len sealed) aad) decrypt

  pub open_sealed-append :
      (key nonce ct aad : Bytes)
      → length nonce ≡ nonce_len
      → open_sealed key (nonce ++ ct) aad ≡ ok_or (chacha_decrypt key nonce ct aad) decrypt
  unfolding open_sealed
  open_sealed-append key nonce ct aad h =
      let front : take nonce_len (nonce ++ ct) ≡ nonce =
        subst (λ n. take n (nonce ++ ct) ≡ nonce) h (take-length-append nonce ct) in
      let back : drop nonce_len (nonce ++ ct) ≡ ct =
        subst (λ n. drop n (nonce ++ ct) ≡ ct) h (drop-length-append nonce ct) in
      ground (arith, front, back, length-append nonce ct)

  -- What was sealed under a key with a nonce of 12 bytes and some associated data opens under that
  -- key with that data.
  pub open_sealed-seal :
      SchemeLaws p
      → (nonce key m aad : Bytes) → length nonce ≡ nonce_len
      → open_sealed key (seal nonce key m aad) aad ≡ ok m
  unfolding seal
  open_sealed-seal laws nonce key m aad h =
      open_sealed-append key nonce (chacha_encrypt key nonce m aad) aad h
      ∙ ap (λ o. ok_or o decrypt) (laws.decrypt-encrypt key nonce m aad)

  -- A text shorter than a nonce is refused before anything is decrypted.
  pub open_sealed-truncated :
      (key sealed aad : Bytes)
      → length sealed < nonce_len
      → open_sealed key sealed aad ≡ err truncated
  unfolding open_sealed
  open_sealed-truncated key sealed aad h = ground arith
