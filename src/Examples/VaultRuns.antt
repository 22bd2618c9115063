-- ===== src/Examples/VaultRuns.antt =====
-- The vault: an account that is created, saved and changed, and the theorems on it.
use seqr.Prelude.{
  Bytes, Str, text, true, false, [], ◌∷◌, none, ◌≡◌, refl, replicate, arith, ◌<◌, All-replicate,
}
use seqr.Prelude.Result.{ok}
use seqr.Core.Error.{from_crypto}
use seqr.Core.Vault.{VaultData, Friend, StoredMessage}
use seqr.Core.Vault.Roster.{IsRoster, befriend, change, change-IsRoster}
use seqr.Core.VaultFile.{
  create_dir_all, write_sealed, Disk, Draws, create, unlock, save, fresh_data,
}
use seqr.Core.VaultFile.RoundTrip.{Sealable, create-unlock, save-unlock}
use seqr.Crypto.Error.{SymmetricKey}
use seqr.Crypto.Kdf.{derive_vault_key}
use seqr.Crypto.Primitives.{IsBytes}
use seqr.Examples.Toy.{toy, toy_hex, toy_scheme, toy_serde, toy_files}

abbrev pub draws : Draws
draws = record {
  agreement = replicate 32 7;
  signing = replicate 32 9;
  salt = replicate 16 4;
  nonce = replicate 12 6;
}

abbrev alice : Str
alice = text "Alice"

abbrev pub data' : VaultData
data' = fresh_data ⦃p = toy⦄ ⦃s = toy_serde⦄ alice draws

abbrev pub no_vault : Disk
no_vault = record { data_dir = false; vault = none; refuses = none }

abbrev pub password : Bytes
password = text "pw"

-- the text "pw" and the salt sum to 295
abbrev pub key : SymmetricKey
key = 39 ∷ replicate 31 3

pub key-derived : from_crypto (derive_vault_key ⦃p = toy⦄ password draws.salt) ≡ ok key
unfolding derive_vault_key
key-derived = refl

pub sealable :
    (salt : Bytes) → IsBytes salt → Sealable ⦃p = toy⦄ ⦃s = toy_serde⦄ draws.nonce salt data'
sealable salt h = record {
  nonce_bytes = All-replicate (λ b. b < 256) 12 6 (omega arith);
  nonce_size = refl;
  salt_bytes = h;
  data_read = (refl, omega arith);
}

create-unlock_example :
    ((create ⦃p = toy⦄ ⦃s = toy_serde⦄ no_vault draws alice password).1 ≡ ok (key, data'))
    × (unlock ⦃p = toy⦄ ⦃s = toy_serde⦄
          (create ⦃p = toy⦄ ⦃s = toy_serde⦄ no_vault draws alice password).0
          password
        ≡ ok (key, data'))
create-unlock_example =
    create-unlock ⦃p = toy⦄ ⦃s = toy_serde⦄ toy_hex toy_scheme toy_files no_vault draws alice
      password key (sealable draws.salt (All-replicate (λ b. b < 256) 16 4 (omega arith)))
      key-derived refl refl

abbrev created : Disk
created = (create ⦃p = toy⦄ ⦃s = toy_serde⦄ no_vault draws alice password).0

created-takes : created.refuses ≡ none
unfolding create create_dir_all write_sealed derive_vault_key
created-takes = refl

save-unlock_example :
    ((save ⦃p = toy⦄ ⦃s = toy_serde⦄ created draws.nonce key data').1 ≡ ok tt)
    × (unlock ⦃p = toy⦄ ⦃s = toy_serde⦄
          (save ⦃p = toy⦄ ⦃s = toy_serde⦄ created draws.nonce key data').0
          password
        ≡ ok (key, data'))
save-unlock_example =
    save-unlock ⦃p = toy⦄ ⦃s = toy_serde⦄ toy_hex toy_scheme toy_files created draws.nonce key data'
      data' password create-unlock_example.1 sealable created-takes

abbrev bob : Friend
bob = record {
  display_name = text "Bob";
  agreement_public = text "b0";
  signing_public = text "b1";
  node_addr = [];
}

change-IsRoster_example : IsRoster (change (befriend bob) data')
change-IsRoster_example =
    change-IsRoster (befriend bob) data'
      (record { friends_distinct = tt; requests_distinct = tt; apart = tt })

abbrev sent : StoredMessage
sent = record {
  conversation_id = text "c";
  sender = text "a1";
  body = text "hi";
  ts = 1;
  outgoing = true;
  seq = 0;
  attachment = none;
}
