-- ===== src/Core/VaultFile.antt =====
-- core/vault.rs: the sealed file of the vault. The disk holds the data directory, if it is made, and the
-- text of `vault.json`, if there is one; it takes writes, or refuses them with the text of an error. The password's key derivation, the seal and the JSON are
-- parameters; what the system's generator gives is an argument.
pub mod RoundTrip
use seqr.Prelude.{
  ℕ, Bytes, Str, text, Bool, true, false, List, [], Option, none, some, if◌then◌else◌,
}
use seqr.Prelude.Result.{Result, ok, err, ◌>>=◌, ◌>>◌, ok_or, map_err, ensure}
use seqr.Core.Error.{
  CoreError, CoreResult, account_exists, no_account, bad_password, storage, from_crypto,
}
use seqr.Core.Serde.{Serde, VaultFile}
use seqr.Core.Vault.{VaultData, default_settings}
use seqr.Crypto.Aead.{seal, open_sealed}
use seqr.Crypto.Error.{SymmetricKey}
use seqr.Crypto.Kdf.{derive_vault_key, generate_salt}
use seqr.Crypto.Keys.{Identity, generate, secret_bytes}
use seqr.Crypto.Primitives.{Primitives}

abbrev pub vault_aad : Bytes
vault_aad = text "seqr-vault-v1"

pub record Disk : Type 0 where
  pub data_dir : Bool
  pub vault : Option Str
  pub refuses : Option Str

abbrev pub exists : Disk → Bool
exists disk = elim disk.vault [ none ↦ false | some _ ↦ true ]

-- what `create` and `write_sealed` draw from the system's generator
pub record Draws : Type 0 where
  pub agreement : Bytes
  pub signing : Bytes
  pub salt : Bytes
  pub nonce : Bytes

-- `std::fs::create_dir_all(data_dir)`
unfoldable pub create_dir_all : Disk → Disk × CoreResult (Unit {0})
create_dir_all disk = if disk.data_dir then (disk, ok tt) else elim disk.refuses [
  | none ↦ (record disk { data_dir = true }, ok tt)
  | some text' ↦ (disk, err (storage text'))
]

-- `std::fs::write` of the temporary file and the rename over the vault
abbrev pub replace : Str → Disk → Disk × CoreResult (Unit {0})
replace text' disk = elim disk.refuses [
  | none ↦ (record disk { vault = some text' }, ok tt)
  | some reason ↦ (disk, err (storage reason))
]

-- a step that changes nothing on disk, in front of one that may
abbrev pub first {ℓ} :
    {A B : Type ℓ} → Disk → CoreResult A → (A → Disk × CoreResult B) → Disk × CoreResult B
first disk (ok a) f = f a
first disk (err e) f = (disk, err e)

module _ ⦃p : Primitives⦄ ⦃s : Serde⦄ where
  unfoldable pub write_sealed :
      Disk → Bytes → Bytes → SymmetricKey → VaultData → Disk × CoreResult (Unit {0})
  write_sealed disk nonce salt key data' =
      let sealed = seal nonce key (s.data_to_json data') vault_aad in
      let file : VaultFile = record {
        v = 1;
        salt = p.hex_encode salt;
        sealed = p.hex_encode sealed;
      } in
      replace (s.file_to_json file) disk

  abbrev pub fresh_data : Str → Draws → VaultData
  fresh_data display_name draws = record {
    display_name = display_name;
    agreement_secret = p.hex_encode draws.agreement;
    signing_secret = p.hex_encode draws.signing;
    node_addr = [];
    friends = [];
    messages = [];
    groups = [];
    direct_keys = [];
    pending_requests = [];
    settings = default_settings;
  }

  unfoldable pub create : Disk → Draws → Str → Bytes → Disk × CoreResult (SymmetricKey × VaultData)
  unfolding create_dir_all write_sealed
  create disk draws display_name password =
      let (disk', made) = create_dir_all disk in
      if exists disk
      then (disk, err account_exists)
      else first disk' (do made; from_crypto (derive_vault_key password draws.salt))
          (λ key.
            let data' = fresh_data display_name draws in
            let (disk'', written) = write_sealed disk' draws.nonce draws.salt key data' in
            (disk'', (do written; ok (key, data'))))

  -- the file and its salt, which `unlock` and `save` read first
  unfoldable pub read_file : Disk → CoreResult VaultFile
  read_file disk = do raw ← ok_or disk.vault no_account; map_err storage (s.file_from_json raw)

  unfoldable pub unlock : Disk → Bytes → CoreResult (SymmetricKey × VaultData)
  unfolding read_file
  unlock disk password = do
    file ← read_file disk
    salt ← ok_or (p.hex_decode file.salt) (storage (text "bad salt"))
    key ← from_crypto (derive_vault_key password salt)
    sealed ← ok_or (p.hex_decode file.sealed) (storage (text "bad sealed"))
    plain ← map_err (λ _. bad_password) (open_sealed key sealed vault_aad)
    data' ← map_err storage (s.data_from_json plain)
    ok (key, data')

  unfoldable pub save : Disk → Bytes → SymmetricKey → VaultData → Disk × CoreResult (Unit {0})
  unfolding read_file write_sealed
  save disk nonce key data' =
      first disk
        (do file ← read_file disk; ok_or (p.hex_decode file.salt) (storage (text "bad salt")))
        (λ salt. write_sealed disk nonce salt key data')
