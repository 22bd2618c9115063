-- ===== src/Crypto/Primitives.antt =====
-- What crates/seqr-crypto takes from other crates (hex, x25519-dalek, hkdf, sha2, ed25519-dalek,
-- chacha20poly1305, argon2), as a parameter, and what is documented of it.
use seqr.Prelude.{ℕ, ◌*◌, ◌≤◌, ◌<◌, ◌≡◌, Bool, true, Option, some, Bytes, Str, length, All, ◌⊎◌}

pub record Primitives : Type 0 where
  -- `hex::encode`, `hex::decode`
  pub hex_encode : Bytes → Str
  pub hex_decode : Str → Option Bytes
  -- `PublicKey::from(&StaticSecret)`, `StaticSecret::diffie_hellman(&PublicKey)`
  pub x25519_public : Bytes → Bytes
  pub diffie_hellman : Bytes → Bytes → Bytes
  -- `Hkdf::<Sha256>::new(None, ikm).expand(info, &mut [0u8; 32])`
  pub hkdf_sha256_32 : Bytes → Bytes → Bytes
  -- `Sha256::digest`
  pub sha256 : Bytes → Bytes
  -- `SigningKey::verifying_key().to_bytes()`, `SigningKey::sign(msg).to_bytes()`
  pub ed25519_public : Bytes → Bytes
  pub ed25519_sign : Bytes → Bytes → Bytes
  -- whether `VerifyingKey::from_bytes` accepts, and `VerifyingKey::verify(msg, signature)`
  pub ed25519_valid_key : Bytes → Bool
  pub ed25519_verify : Bytes → Bytes → Bytes → Bool
  -- `ChaCha20Poly1305::encrypt`, `decrypt`, by key, nonce, text and associated data
  pub chacha_encrypt : Bytes → Bytes → Bytes → Bytes → Bytes
  pub chacha_decrypt : Bytes → Bytes → Bytes → Bytes → Option Bytes
  -- `Argon2::hash_password_into` at the parameters of kdf.rs, by password and salt
  pub argon2id : Bytes → Bytes → Option Bytes

abbrev pub IsBytes : Bytes → Type 0
IsBytes = All (λ b. b < 256)

-- the characters that `hex::encode` writes, and those that `hex::decode` takes
abbrev pub IsLowerHex : ℕ → Type 0
IsLowerHex c = ((b'0' ≤ c) × (c ≤ b'9')) ⊎ ((b'a' ≤ c) × (c ≤ b'f'))

abbrev pub IsHexDigit : ℕ → Type 0
IsHexDigit c = IsLowerHex c ⊎ ((b'A' ≤ c) × (c ≤ b'F'))

-- hex: lowercase text of twice the length, read back; nothing else than hex digits is read.
pub record HexLaws (p : Primitives) : Type 0 where
  pub decode-encode : (b : Bytes) → IsBytes b → p.hex_decode (p.hex_encode b) ≡ some b
  pub encode-lower : (b : Bytes) → IsBytes b → All IsLowerHex (p.hex_encode b)
  pub length-encode : (b : Bytes) → length (p.hex_encode b) ≡ 2 * length b
  pub decode-digits : (s : Str) (b : Bytes) → p.hex_decode s ≡ some b → All IsHexDigit s
  pub decode-IsBytes : (s : Str) (b : Bytes) → p.hex_decode s ≡ some b → IsBytes b

-- The schemes work as documented: both sides of a key agreement have one secret, a signature of a
-- key verifies under its public half, what was encrypted decrypts, and the sizes are fixed.
pub record SchemeLaws (p : Primitives) : Type 0 where
  pub dh-comm :
      (a b : Bytes)
      → p.diffie_hellman a (p.x25519_public b) ≡ p.diffie_hellman b (p.x25519_public a)
  pub decrypt-encrypt :
      (k n m a : Bytes) → p.chacha_decrypt k n (p.chacha_encrypt k n m a) a ≡ some m
  pub encrypt-IsBytes : (k n m a : Bytes) → IsBytes m → IsBytes (p.chacha_encrypt k n m a)
  pub verify-sign :
      (sk m : Bytes) → p.ed25519_verify (p.ed25519_public sk) m (p.ed25519_sign sk m) ≡ true
  pub public-valid : (sk : Bytes) → p.ed25519_valid_key (p.ed25519_public sk) ≡ true
  pub length-ed25519_public : (sk : Bytes) → length (p.ed25519_public sk) ≡ 32
  pub ed25519_public-IsBytes : (sk : Bytes) → IsBytes (p.ed25519_public sk)
  pub length-x25519_public : (sk : Bytes) → length (p.x25519_public sk) ≡ 32
  pub x25519_public-IsBytes : (sk : Bytes) → IsBytes (p.x25519_public sk)
  pub length-sign : (sk m : Bytes) → length (p.ed25519_sign sk m) ≡ 64
  pub sign-IsBytes : (sk m : Bytes) → IsBytes (p.ed25519_sign sk m)
