-- ===== src/Core/Error.antt =====
-- `CoreError` of core/mod.rs, and the conversions into it.
use seqr.Prelude.{Str, text}
use seqr.Prelude.Result.{Result, map_err}
use seqr.Crypto.Error.{CryptoError, decrypt, truncated, bad_signature, bad_key, kdf}

pub data CoreError : Type 0 where
  no_account account_exists bad_password locked duplicate_friend unknown_sender : CoreError
  bad_profile storage crypto transport : Str → CoreError

-- `CryptoError::to_string`
unfoldable pub describe : CryptoError → Str
describe decrypt = text "decryption failed: ciphertext could not be authenticated"
describe truncated = text "ciphertext too short"
describe bad_signature = text "signature verification failed"
describe bad_key = text "invalid key bytes"
describe kdf = text "password key derivation failed"

-- `From<CryptoError> for CoreError`, which `?` applies
abbrev pub from_crypto {ℓ} : {A : Type ℓ} → Result CryptoError A → Result CoreError A
from_crypto r = map_err (λ e. crypto (describe e)) r

abbrev pub CoreResult {ℓ} : Type ℓ → Type ℓ
CoreResult A = Result CoreError A
