-- ===== src/Commands/Account.antt =====
-- commands.rs: the account's life, and what the user interface reads of it. The start of the transport is a
-- parameter; the window's screen protection is not here.
use seqr.Prelude.{Bytes, Str, List, none, some, ◌≡◌, refl}
use seqr.Prelude.Result.{ok, err, ◌>>=◌, ◌>>◌}
use seqr.Core.Error.{CoreResult, locked, from_crypto}
use seqr.Core.Identity.{profile_for, encode_token}
use seqr.Core.MailboxClient
use seqr.Core.Serde.{Serde, VaultFile, ReadsFile}
use seqr.Core.Vault.{VaultData, Friend, Settings, StoredMessage, history, identity}
use seqr.Core.VaultFile
use seqr.Core.VaultFile.{Draws, fresh_data}
use seqr.Core.VaultFile.RoundTrip.{Sealable, create-unlock}
use seqr.Crypto.Error.{SymmetricKey}
use seqr.Crypto.Kdf.{derive_vault_key}
use seqr.Crypto.Keys.{secret_bytes}
use seqr.Crypto.Primitives.{Primitives, HexLaws, SchemeLaws}
use seqr.Net.{Session}
use seqr.Protocol.{ProfileBlob}

-- what reads the unlocked account and changes nothing
unfoldable pub reading : {A : Type 0} → (VaultData → CoreResult A) → Session → CoreResult A
reading f session = elim session.unlocked [ none ↦ err locked | some u ↦ f u.data' ]

unfoldable pub lock : Session → Session
lock session = record session { unlocked = none }

unfoldable pub set_unlocked : SymmetricKey → VaultData → Session → Session
set_unlocked key data' session = record session {
  unlocked = some (record { vault_key = key; data' = data' });
}

unfoldable pub list_requests : Session → CoreResult (List Friend)
unfolding reading
list_requests session = reading (λ d. ok d.pending_requests) session

unfoldable pub list_friends : Session → CoreResult (List Friend)
unfolding reading
list_friends session = reading (λ d. ok d.friends) session

unfoldable pub get_settings : Session → CoreResult Settings
unfolding reading
get_settings session = reading (λ d. ok d.settings) session

unfoldable pub get_history : Str → Session → CoreResult (List StoredMessage)
unfolding reading
get_history conversation_id session = reading (λ d. ok (history d conversation_id)) session

-- the command `presence`, at an unlocked account or not
unfoldable pub presence :
    ⦃p : Primitives⦄ {S : Type 0}
    → MailboxClient.Server S
    → List Str
    → S
    → S × CoreResult (List Str)
presence server ids st = MailboxClient.presence server ids st

module _ ⦃p : Primitives⦄ where
  unfoldable pub my_profile : Session → CoreResult ProfileBlob
  unfolding reading
  my_profile session = reading profile_for session

  -- the profile and the signing key of an account that was opened
  abbrev pub opened_account : VaultData → CoreResult (ProfileBlob × Bytes)
  opened_account data' = do
    profile ← profile_for data'
    me ← identity data'
    ok (profile, (secret_bytes me).1)

  -- the session with an opened account, and the transport's start: the account stays unlocked also when
  -- that fails
  unfoldable pub enter :
      (Bytes → CoreResult (Unit {0}))
      → CoreResult (SymmetricKey × VaultData)
      → Session
      → Session × CoreResult ProfileBlob
  unfolding set_unlocked
  enter start (err e) session = (session, err e)
  enter start (ok (key, data')) session = elim (opened_account data') [
    | err e ↦ (session, err e)
    | ok (profile, signing) ↦ (set_unlocked key data' session, (do start signing; ok profile))
  ]

  module _ ⦃s : Serde⦄ where
    unfoldable pub export_profile : Session → CoreResult Str
    unfolding reading
    export_profile session = reading (λ d. do profile ← profile_for d; encode_token profile) session

    unfoldable pub create_account :
        (Bytes → CoreResult (Unit {0}))
        → Draws
        → Str
        → Bytes
        → Session
        → Session × CoreResult ProfileBlob
    unfolding enter
    create_account start draws display_name password session =
        let (disk', made) = VaultFile.create session.disk draws display_name password in
        enter start made (record session { disk = disk' })

    unfoldable pub unlock :
        (Bytes → CoreResult (Unit {0})) → Bytes → Session → Session × CoreResult ProfileBlob
    unfolding enter
    unlock start password session = enter start (VaultFile.unlock session.disk password) session

    -- A new account that is locked opens again with its password: the session is as it was, and the
    -- profile is the same.
    pub unlock-lock :
        HexLaws p
        → SchemeLaws p
        → ((f : VaultFile) → ReadsFile s f)
        → (start : Bytes → CoreResult (Unit {0})) (draws : Draws) (display_name : Str)
          (password : Bytes) (key : SymmetricKey) (session : Session) (profile : ProfileBlob)
          (signing : Bytes)
        → Sealable draws.nonce draws.salt (fresh_data display_name draws)
        → from_crypto (derive_vault_key password draws.salt) ≡ ok key
        → opened_account (fresh_data display_name draws) ≡ ok (profile, signing)
        → session.disk.vault ≡ none
        → session.disk.refuses ≡ none
        → let (session', r) = create_account start draws display_name password session in
          (session'.unlocked
            ≡ some (record { vault_key = key; data' = fresh_data display_name draws }))
          × (r ≡ (do start signing; ok profile))
          × (unlock start password (lock session') ≡ (session', r))
    unfolding create_account unlock lock enter set_unlocked
    unlock-lock hex scheme files start draws display_name password key session profile signing fine
          derived identified absent takes =
        let (made, opens) =
          create-unlock hex scheme files session.disk draws display_name password key fine derived
            absent takes in
        rw (create_account, made)
          (rw (enter, identified) (refl, refl, rw opens (rw identified refl)))
