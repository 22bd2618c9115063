-- ===== src/Core/VaultFile/RoundTrip.antt =====
-- What was created or saved is what the password unlocks; what fails leaves the disk as it was.
use seqr.Prelude.{
  subst, ◌<◌, Bytes, Str, text, length, ◌≡◌, refl, ap, sym, ◌∙◌, true, none, some, arith,
  All-append,
}
use seqr.Prelude.Result.{ok, ◌>>=◌, ok_or, map_err, >>=-eq-ok, ok_or-eq-ok}
use seqr.Core.Error.{storage, CoreResult, bad_password, from_crypto}
use seqr.Core.Serde.{Serde, VaultFile, ReadsData, ReadsFile}
use seqr.Core.Vault.{VaultData}
use seqr.Core.VaultFile.{
  create_dir_all, Disk, Draws, vault_aad, create, unlock, save, write_sealed, read_file, fresh_data,
}
use seqr.Crypto.Aead.{seal, open_sealed, open_sealed-seal, nonce_len}
use seqr.Crypto.Error.{SymmetricKey}
use seqr.Crypto.Kdf.{derive_vault_key}
use seqr.Crypto.Primitives.{Primitives, HexLaws, SchemeLaws, IsBytes}

module _ ⦃p : Primitives⦄ ⦃s : Serde⦄ where
  -- the file that `write_sealed` writes
  abbrev sealed_file : Bytes → Bytes → SymmetricKey → VaultData → VaultFile
  sealed_file nonce salt key d = record {
    v = 1;
    salt = p.hex_encode salt;
    sealed = p.hex_encode (seal nonce key (s.data_to_json d) vault_aad);
  }

  -- what the write relies on: sizes, and that the libraries read back what they wrote
  pub record Sealable (nonce salt : Bytes) (d : VaultData) : Type 0 where
    pub nonce_bytes : IsBytes nonce
    pub nonce_size : length nonce ≡ nonce_len
    pub salt_bytes : IsBytes salt
    pub data_read : ReadsData s d

  module _ (hex : HexLaws p) (scheme : SchemeLaws p) (files : (f : VaultFile) → ReadsFile s f) where
    unlock-sealed :
        (disk : Disk) (nonce salt : Bytes) (key : SymmetricKey) (d : VaultData) (password : Bytes)
        → Sealable nonce salt d
        → from_crypto (derive_vault_key password salt) ≡ ok key
        → unlock
            (record disk { vault = some (s.file_to_json (sealed_file nonce salt key d)) })
            password
          ≡ ok (key, d)
    unfolding unlock
    unlock-sealed disk nonce salt key d password fine derived =
        rw (files (sealed_file nonce salt key d)) (
          rw (hex.decode-encode salt fine.salt_bytes) (
            rw derived (
              rw
                (hex.decode-encode (seal nonce key (s.data_to_json d) vault_aad) (
                  unfold seal in
                  All-append (λ b. b < 256) nonce _ fine.nonce_bytes
                    (scheme.encrypt-IsBytes key nonce (s.data_to_json d) vault_aad
                      fine.data_read.1)))
                (rw (open_sealed-seal scheme nonce key (s.data_to_json d) vault_aad fine.nonce_size)
                  (rw fine.data_read.0 refl)))))

    -- On a disk without a vault that takes writes, with a nonce of 12 bytes and a key that the
    -- password gives with the salt, an account is created, and the password unlocks it with the
    -- same key and contents.
    pub create-unlock :
        (disk : Disk) (draws : Draws) (display_name : Str) (password : Bytes) (key : SymmetricKey)
        → Sealable draws.nonce draws.salt (fresh_data display_name draws)
        → from_crypto (derive_vault_key password draws.salt) ≡ ok key
        → disk.vault ≡ none
        → disk.refuses ≡ none
        → ((create disk draws display_name password).1 ≡ ok (key, fresh_data display_name draws))
          × (unlock (create disk draws display_name password).0 password
              ≡ ok (key, fresh_data display_name draws))
    unfolding create create_dir_all write_sealed
    create-unlock disk draws display_name password key fine derived absent w =
        let unlocked =
          unlock-sealed (record disk { data_dir = true }) draws.nonce draws.salt key
            (fresh_data display_name draws) password fine derived in
        (ground (arith, derived, absent, w), ground (arith, derived, absent, w, unlocked))

    key_kept :
        (first' : CoreResult Bytes) (opens : Bytes → CoreResult Bytes)
        (reads : Bytes → CoreResult VaultData) (key' key : SymmetricKey) (old : VaultData)
        → let pair : VaultData → CoreResult (SymmetricKey × VaultData) = λ d. ok (key', d) in
          (first' >>= λ sealed. opens sealed >>= λ plain. reads plain >>= pair) ≡ ok (key, old)
          → key' ≡ key
    key_kept first' opens reads key' key old h =
        let (sealed, _, h1) = >>=-eq-ok first' _ h in
        let (plain, _, h2) = >>=-eq-ok (opens sealed) _ h1 in
        let (d, _, h3) = >>=-eq-ok (reads plain) _ h2 in ground (arith, h3)

    opened_file :
        (disk : Disk) (key : SymmetricKey) (old : VaultData) (password : Bytes)
        → unlock disk password ≡ ok (key, old)
        → (file : VaultFile) × (salt : Bytes) × (read_file disk ≡ ok file)
          × (p.hex_decode file.salt ≡ some salt)
          × (from_crypto (derive_vault_key password salt) ≡ ok key)
    unfolding unlock
    opened_file disk key old password opened =
        let (file, found, rest) = >>=-eq-ok (read_file disk) _ opened in
        let (salt, read, rest') = >>=-eq-ok (ok_or (p.hex_decode file.salt) _) _ rest in
        let (key', derived, rest'') =
          >>=-eq-ok (from_crypto (derive_vault_key password salt)) _ rest' in
        let same =
          key_kept (ok_or (p.hex_decode file.sealed) (storage (text "bad sealed")))
            (λ sealed. map_err (λ _. bad_password) (open_sealed key' sealed vault_aad))
            (λ plain. map_err storage (s.data_from_json plain)) key' key old rest'' in
        (file, salt, found, ok_or-eq-ok _ _ read, derived ∙ ap ok same)

    write_sealed-takes :
        (disk : Disk) (nonce salt : Bytes) (key : SymmetricKey) (d : VaultData)
        → disk.refuses ≡ none
        → write_sealed disk nonce salt key d
          ≡ (record disk { vault = some (s.file_to_json (sealed_file nonce salt key d)) }, ok tt)
    unfolding write_sealed
    write_sealed-takes disk nonce salt key d w = ground (arith, w)

    save-writes :
        (disk : Disk) (nonce salt : Bytes) (key : SymmetricKey) (d : VaultData) (file : VaultFile)
        → read_file disk ≡ ok file
        → p.hex_decode file.salt ≡ some salt
        → save disk nonce key d ≡ write_sealed disk nonce salt key d
    unfolding save
    save-writes disk nonce salt key d file found read = rw found (rw read refl)

    -- On a disk that takes writes, what is saved with a nonce of 12 bytes and the key of an
    -- unlocked account is what the same password unlocks next.
    pub save-unlock :
        (disk : Disk) (nonce : Bytes) (key : SymmetricKey) (old d : VaultData) (password : Bytes)
        → unlock disk password ≡ ok (key, old)
        → ((salt : Bytes) → IsBytes salt → Sealable nonce salt d)
        → disk.refuses ≡ none
        → ((save disk nonce key d).1 ≡ ok tt)
          × (unlock (save disk nonce key d).0 password ≡ ok (key, d))
    save-unlock disk nonce key old d password opened fine w =
        let (file, salt, found, read, derived) = opened_file disk key old password opened in
        let bytes = hex.decode-IsBytes file.salt salt read in
        let unlocked = unlock-sealed disk nonce salt key d password (fine salt bytes) derived in
        let written =
          save-writes disk nonce salt key d file found read
          ∙ write_sealed-takes disk nonce salt key d w in
        (
          ap (λ r. r.1) written,
          subst (λ r. unlock r.0 password ≡ ok (key, d)) (sym written) unlocked,
        )
