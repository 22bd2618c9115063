-- ===== src/Matrix/SessionFile.antt =====
-- matrix/client.rs: the session of the Matrix client on disk, sealed with a key from the login password. Base64 and the
-- JSON are a parameter; the SDK's own session is a text. The random bytes are arguments.
use seqr.Prelude.{Bytes, Str, text, ◌≡◌, refl, ap, Option, none, some, length, arith, str_eq_iff}
use seqr.Prelude.Assoc.{lookup, insert, lookup-insert}
use seqr.Prelude.Result.{Result, ok, err, ◌>>=◌, ok_or, map_err}
use seqr.Core.Attachment.Files.{Files, no_such_file}
use seqr.Crypto.Aead.{seal, open_sealed, open_sealed-seal, nonce_len}
use seqr.Crypto.Error.{SymmetricKey, CryptoError}
use seqr.Crypto.Kdf.{derive_vault_key}
use seqr.Crypto.Primitives.{Primitives, SchemeLaws}
use seqr.Core.Error.{describe}

pub record ClientSession : Type 0 where
  pub homeserver : Str
  pub db_path : Str
  pub passphrase : Str

pub record FullSession : Type 0 where
  pub client_session : ClientSession
  pub user_session : Str
  pub sync_token : Option Str

pub record SealedSession : Type 0 where
  pub salt : Str
  pub sealed : Str

-- base64 and serde_json, as far as the session file uses them
pub record Codec : Type 0 where
  pub base64_encode : Bytes → Str
  pub base64_decode : Str → Result Str Bytes
  pub full_to_json : FullSession → Bytes
  pub full_from_json : Bytes → Result Str FullSession
  pub envelope_to_json : SealedSession → Str
  pub envelope_from_json : Str → Result Str SealedSession

-- They read back what they wrote.
pub record CodecLaws (c : Codec) : Type 0 where
  pub decode-encode : (b : Bytes) → c.base64_decode (c.base64_encode b) ≡ ok b
  pub full_read : (f : FullSession) → c.full_from_json (c.full_to_json f) ≡ ok f
  pub envelope_read : (e : SealedSession) → c.envelope_from_json (c.envelope_to_json e) ≡ ok e

abbrev pub session_aad : Bytes
session_aad = text "seqr-matrix-session-v1"

-- `map_err(|e| e.to_string())`
abbrev described : {A : Type 0} → Result CryptoError A → Result Str A
described r = map_err describe r

abbrev written : Option Str → Str → Str → Files → Files × Result Str (Unit {0})
written none path content fs = (record fs { files = insert path content fs.files }, ok tt)
written (some reason) path content fs = (fs, err reason)

-- `std::fs::write`, with the error as text
abbrev pub write_file : Str → Str → Files → Files × Result Str (Unit {0})
write_file path content fs = written fs.refuses path content fs

module _ ⦃p : Primitives⦄ where
  unfoldable pub new_passphrase : Bytes → Str
  new_passphrase random = p.hex_encode random

  module _ (c : Codec) where
    abbrev pub envelope : Bytes → Bytes → SymmetricKey → FullSession → Str
    envelope nonce salt key full = c.envelope_to_json (record {
      salt = c.base64_encode salt;
      sealed = c.base64_encode (seal nonce key (c.full_to_json full) session_aad);
    })

    unfoldable pub write_encrypted_session :
        Bytes → Bytes → Str → Bytes → FullSession → Files → Files × Result Str (Unit {0})
    write_encrypted_session salt nonce path password full fs =
        elim (described (derive_vault_key password salt)) [
          | err e ↦ (fs, err e)
          | ok key ↦ write_file path (envelope nonce salt key full) fs
        ]

    unfoldable pub read_encrypted_session : Str → Bytes → Files → Result Str FullSession
    read_encrypted_session path password fs = do
      json ← ok_or (lookup path fs.files) no_such_file
      env ← c.envelope_from_json json
      salt ← c.base64_decode env.salt
      sealed ← c.base64_decode env.sealed
      key ← described (derive_vault_key password salt)
      plaintext ← map_err (λ _. text "wrong password") (open_sealed key sealed session_aad)
      c.full_from_json plaintext

    pub read_encrypted_session-none :
        (path : Str) (password : Bytes) (fs : Files)
        → lookup path fs.files ≡ none
        → read_encrypted_session path password fs ≡ err no_such_file
    unfolding read_encrypted_session
    read_encrypted_session-none path password fs missing = rw missing refl

    -- A session that was written is read back with its password.
    pub read_encrypted_session-write_encrypted_session :
        SchemeLaws p
        → CodecLaws c
        → (salt nonce : Bytes) (path : Str) (password : Bytes) (key : SymmetricKey)
          (full : FullSession) (fs : Files)
        → length nonce ≡ nonce_len
        → derive_vault_key password salt ≡ ok key
        → fs.refuses ≡ none
        → let (fs', done) = write_encrypted_session salt nonce path password full fs in
          (done ≡ ok tt) × (read_encrypted_session path password fs' ≡ ok full)
    unfolding write_encrypted_session read_encrypted_session
    read_encrypted_session-write_encrypted_session scheme laws salt nonce path password key full fs
          twelve derived takes =
        let content = envelope nonce salt key full in
        let made : write_file path content fs
            ≡ (record fs { files = insert path content fs.files }, ok tt) =
          ap (λ refuses. written refuses path content fs) takes in
        let there : lookup path (insert path content fs.files) ≡ some content =
          ground (arith, lookup-insert path path content fs.files, str_eq_iff path path) in
        rw (write_encrypted_session, derived)
          (rw made (
            refl,
            rw (read_encrypted_session, there)
                (rw (laws.envelope_read _) (
                  rw (laws.decode-encode salt) (
                    rw (laws.decode-encode (seal nonce key (c.full_to_json full) session_aad)) (
                      rw derived (
                        rw
                          (open_sealed-seal scheme nonce key (c.full_to_json full) session_aad
                            twelve)
                          (laws.full_read full)))))),
          ))
