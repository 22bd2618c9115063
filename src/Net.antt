-- ===== src/Net.antt =====
-- apps/desktop/src-tauri/src/net.rs: what the desktop does with a packet that comes in, behind the
-- session of core/session.rs, as far as it is for the account alone; attachments are in the child `Attachments`. The
-- clock and the nonce of the vault's save are arguments.
pub mod Incoming
pub mod Invites
pub mod Attachments
pub mod Outgoing
pub mod Poll
use seqr.Prelude.{
  ℕ, Bytes, Str, text, Bool, true, false, not, List, [], ◌∷◌, ◌++◌, Option, none, some,
  if◌then◌else◌, ltb, any, find, retain, str_eq,
}
use seqr.Prelude.Result.{Result, ok, err, ok_or, ◌>>=◌, ◌>>◌}
use seqr.Core.Conversation.{direct_key_for_epoch, open_direct_key}
use seqr.Core.Error.{
  CoreError, CoreResult, bad_profile, crypto, locked, unknown_sender, from_crypto,
}
use seqr.Core.Group.{open_group_key}
use seqr.Core.Identity.{friend_from}
use seqr.Core.Message.{open_frame}
use seqr.Core.Packet.{KeyUpdate, GroupInvite, FriendRequest, friend_req_signing_bytes}
use seqr.Core.Serde.{Serde}
use seqr.Core.Vault.{
  VaultData, Friend, Group, StoredMessage, signs_as, has_incoming, add_message, add_pending,
  group_by_id, group_key, set_group, friend_by_signing, set_direct_key, identity, decode_array,
}
use seqr.Core.VaultFile.{Disk, save}
use seqr.Crypto.Error.{SymmetricKey}
use seqr.Crypto.Keys.{public}
use seqr.Crypto.Primitives.{Primitives}
use seqr.Crypto.Sign.{verify_raw}
use seqr.Protocol.{MessageFrame}

-- `Unlocked` of core/session.rs
pub record Unlocked : Type 0 where
  pub vault_key : SymmetricKey
  pub data' : VaultData

-- the vault on disk and the unlocked account, which every handler may change
pub record Session : Type 0 where
  pub disk : Disk
  pub unlocked : Option Unlocked

pub data Inbound : Type 0 where
  message : StoredMessage → Inbound
  group_updated : Str → Inbound
  friend_requested : Str → Inbound
  nothing : Inbound

abbrev pub Handler : Type 0
Handler = Disk → Unlocked → Disk × Unlocked × CoreResult Inbound

-- `SessionState::with_unlocked`
unfoldable pub with_unlocked : Session → Handler → Session × CoreResult Inbound
with_unlocked session f = elim session.unlocked [
  | none ↦ (session, err locked)
  | some u ↦
      let (disk', u', r) = f session.disk u in (record { disk = disk'; unlocked = some u' }, r)
]

-- a step that changes nothing, in front of one that may
abbrev pub checked {ℓ} :
    {A : Type ℓ}
    → Disk
    → Unlocked
    → CoreResult A
    → (A → Disk × Unlocked × CoreResult Inbound)
    → Disk × Unlocked × CoreResult Inbound
checked disk u (ok a) f = f a
checked disk u (err e) f = (disk, u, err e)

module _ ⦃p : Primitives⦄ where
  unfoldable pub conv_key_for : VaultData → Str → Str → ℕ → CoreResult SymmetricKey
  conv_key_for data' conversation_id sender epoch = do
    me ← identity data'
    elim (group_by_id data' conversation_id) [
      | some g ↦
          if any (signs_as sender) g.members
          then ok_or (group_key data' conversation_id) (crypto (text "no group key"))
          else err unknown_sender
      | none ↦ (do
        friend ← ok_or (friend_by_signing data' sender) unknown_sender
        direct_key_for_epoch data' me friend epoch)
    ]

  -- the roster that an invite gives its receiver: everyone else
  abbrev pub others : Str → List Friend → List Friend
  others my_signing members = retain (λ m. not (signs_as my_signing m)) members

  -- what an invite makes of the groups, with the opened key
  unfoldable pub put_group : Str → GroupInvite → SymmetricKey → VaultData → VaultData
  put_group my_signing invite kg data' =
      let members = others my_signing invite.members in
      elim (group_by_id data' invite.group_id) [
        | some g ↦ if ltb invite.epoch g.epoch then data' else record data' {
          groups =
              set_group invite.group_id
                (λ g'. record g' {
                  name = invite.name;
                  members = members;
                  epoch = invite.epoch;
                  key = p.hex_encode kg;
                })
                data'.groups;
        }
        | none ↦ record data' {
          groups =
              data'.groups
              ++ record {
                id = invite.group_id;
                name = invite.name;
                members = members;
                epoch = invite.epoch;
                key = p.hex_encode kg;
              }
                ∷ [];
        }
      ]

  -- the signature of a friend request, by the key in its profile
  unfoldable pub verify_request : FriendRequest → CoreResult (Unit {0})
  verify_request req = do
    sig ← ok_or (decode_array 64 req.signature) (bad_profile (text "bad request signature"))
    signer ←
        ok_or (decode_array 32 req.profile.signing_public) (bad_profile (text "bad signing key"))
    let bytes = friend_req_signing_bytes req.profile
    from_crypto (verify_raw signer bytes sig)

  -- the key in an invite, sealed by the originator that its roster names
  unfoldable pub open_invite : VaultData → GroupInvite → CoreResult (Str × SymmetricKey)
  unfolding public
  open_invite data' invite = do
    me ← identity data'
    originator ←
        ok_or (find (signs_as invite.originator) invite.members)
          (bad_profile (text "originator not in roster"))
    kg ← open_group_key me originator invite.group_id invite.epoch invite.sealed_key
    ok (p.hex_encode (public me).signing_public, kg)

  -- the rotated key that a friend sends
  unfoldable pub open_update : VaultData → KeyUpdate → CoreResult SymmetricKey
  open_update data' ku = do
    me ← identity data'
    originator ← ok_or (friend_by_signing data' ku.originator) unknown_sender
    open_direct_key me originator ku.conversation_id ku.epoch ku.sealed_key

  module _ ⦃s : Serde⦄ where
    -- the account takes the new contents, then the vault is saved; only a save that succeeds gives the result
    abbrev pub keep : Bytes → VaultData → Inbound → Handler
    keep nonce data' result disk u =
        let (disk', saved) = save disk nonce u.vault_key data' in
        (disk', record u { data' = data' }, (do saved; ok result))

    unfoldable pub on_message : ℕ → Bytes → MessageFrame → Handler
    unfolding conv_key_for
    on_message now nonce frame disk u =
        if has_incoming u.data' frame.conversation_id frame.sender frame.seq
        then (disk, u, ok nothing)
        else checked disk u
            (do
              key ← conv_key_for u.data' frame.conversation_id frame.sender frame.epoch
              open_frame key frame)
            (λ body.
              let msg : StoredMessage = record {
                conversation_id = frame.conversation_id;
                sender = frame.sender;
                body = body;
                ts = now;
                outgoing = false;
                seq = frame.seq;
                attachment = none;
              } in
              keep nonce (add_message msg u.data') (message msg) disk u)

    unfoldable pub on_friend_request : Bytes → FriendRequest → Handler
    unfolding verify_request
    on_friend_request nonce req disk u = checked disk u (verify_request req) (λ _.
        let friend = friend_from req.profile in
        let (data', added) = add_pending friend u.data' in
        if added
        then keep nonce data' (friend_requested friend.signing_public) disk u
        else (disk, record u { data' = data' }, ok nothing))

    unfoldable pub on_key_update : Bytes → KeyUpdate → Handler
    unfolding open_update
    on_key_update nonce ku disk u = checked disk u (open_update u.data' ku) (λ key.
        keep nonce (set_direct_key ku.conversation_id ku.epoch (p.hex_encode key) u.data') nothing
          disk u)

    unfoldable pub handle_invite : Bytes → GroupInvite → Handler
    unfolding open_invite put_group
    handle_invite nonce invite disk u = checked disk u (open_invite u.data' invite) (λ opened.
        let (my_signing, kg) = opened in
        keep nonce (put_group my_signing invite kg u.data') (group_updated invite.group_id) disk u)
