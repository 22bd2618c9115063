-- ===== src/Commands.antt =====
-- apps/desktop/src-tauri/src/commands.rs: the commands of the user interface, up to the packets that
-- they hand to the delivery. What a command does under the session's lock is a step on the disk and
-- the unlocked account. Random bytes and the clock are arguments.
pub mod Account
pub mod Attachments
pub mod Groups
pub mod Sending
use seqr.Prelude.{
  ℕ, ◌+◌, ◌%◌, ◌^◌, Bytes, Str, text, Bool, true, false, not, List, [], ◌∷◌, ◌++◌, Option, none,
  some, map, length, any, if◌then◌else◌,
}
use seqr.Prelude.Result.{Result, ok, err, ok_or, ◌>>=◌, ◌>>◌}
use seqr.Core.Conversation.{direct_conversation_id, current_direct_key, seal_direct_key}
use seqr.Core.Error.{CoreError, CoreResult, bad_profile, crypto, unknown_sender, duplicate_friend}
use seqr.Core.Identity.{decode_token, friend_from, signed_friend_request}
use seqr.Core.Message.{build_frame}
use seqr.Core.Packet.{Packet, message, friend_request, key_update, KeyUpdate}
use seqr.Core.Serde.{Serde}
use seqr.Core.Vault.{
  VaultData, Friend, Group, Settings, StoredMessage, AttachmentInfo, signs_as, add_friend,
  add_message, remove_pending, remove_friend, pending_by_signing, friend_by_signing, group_by_id,
  group_key, next_seq, history, identity, decode_array, set_direct_key,
}
use seqr.Core.VaultFile.{Disk, save, exists}
use seqr.Crypto.Fingerprint
use seqr.Crypto.Keys.{Identity, public}
use seqr.Crypto.Primitives.{Primitives}
use seqr.Net.{Unlocked, Session}

pub record AppStatus : Type 0 where
  pub account_exists : Bool
  pub unlocked : Bool

abbrev pub app_status : Session → AppStatus
app_status session = record {
  account_exists = exists session.disk;
  unlocked = elim session.unlocked [ none ↦ false | some _ ↦ true ];
}

pub record ConversationDto : Type 0 where
  pub id : Str
  pub kind : Str
  pub title : Str
  pub peer : Option Str
  pub members : ℕ

-- a packet for one recipient
pub record Outgoing : Type 0 where
  pub recipient : Str
  pub packet : Packet

abbrev pub Locked : Type 0 → Type 0
Locked A = Disk × Unlocked × CoreResult A

-- a step that changes nothing, in front of one that may
abbrev pub tried : {A B : Type 0} → Disk → Unlocked → CoreResult A → (A → Locked B) → Locked B
tried disk u (ok a) f = f a
tried disk u (err e) f = (disk, u, err e)

unfoldable pub stored_outgoing : ℕ → Str → Str → Str → ℕ → Option AttachmentInfo → StoredMessage
stored_outgoing now conversation_id sender body seq attachment = record {
  conversation_id = conversation_id;
  sender = sender;
  body = body;
  ts = now;
  outgoing = true;
  seq = seq;
  attachment = attachment;
}

module _ ⦃p : Primitives⦄ where
  -- this account's signing key in hex
  abbrev pub signing_hex : Identity → Str
  signing_hex me = p.hex_encode (p.ed25519_public me.signing_key)

  unfoldable pub list_conversations : VaultData → CoreResult (List ConversationDto)
  list_conversations data' = do
    me ← identity data'
    ok (
        map
          (λ f. record {
            id = direct_conversation_id (signing_hex me) f.signing_public;
            kind = text "direct";
            title = f.display_name;
            peer = some f.signing_public;
            members = 2;
          })
          data'.friends
        ++ map
            (λ g. record {
              id = g.id;
              kind = text "group";
              title = g.name;
              peer = none;
              members = length g.members + 1;
            })
            data'.groups)

  unfoldable pub group_members : VaultData → Str → List Friend
  group_members data' group_id = elim (group_by_id data' group_id) [
    | none ↦ []
    | some g ↦ g.members
  ]

  -- the command `safety_number`
  unfoldable pub safety_number_with : VaultData → Str → CoreResult Str
  safety_number_with data' friend = do
    me ← identity data'
    theirs ← ok_or (decode_array 32 friend) (bad_profile (text "bad friend key"))
    ok (Fingerprint.safety_number (p.ed25519_public me.signing_key) theirs)

  module _ ⦃s : Serde⦄ where
    -- the account takes the new contents, the vault is saved, and then the result is made
    abbrev pub saved : {A : Type 0} → Bytes → VaultData → CoreResult A → Disk → Unlocked → Locked A
    saved nonce data' result disk u =
        let (disk', written) = save disk nonce u.vault_key data' in
        (disk', record u { data' = data' }, (do written; result))

    unfoldable pub import_friend : Bytes → Str → Disk → Unlocked → Locked (Friend × Outgoing)
    import_friend nonce token disk u = tried disk u (decode_token token) (λ profile.
        let friend = friend_from profile in
        let data' = (add_friend friend u.data').0 in
        let request : CoreResult (Friend × Outgoing) = (do
          request ← signed_friend_request data'
          ok (
            friend,
            record { recipient = friend.signing_public; packet = friend_request request },
          )) in
        if any (signs_as friend.signing_public) u.data'.friends
        then (disk, u, err duplicate_friend)
        else saved nonce data' request disk u)

    unfoldable pub accept_request : Bytes → Str → Disk → Unlocked → Locked Outgoing
    accept_request nonce signing disk u =
        tried disk u (ok_or (pending_by_signing u.data' signing) unknown_sender) (λ friend.
          let data' = (add_friend friend u.data').0 in
          saved nonce data'
            (do
              request ← signed_friend_request data'
              ok (record { recipient = signing; packet = friend_request request }))
            disk u)

    unfoldable pub decline_request : Bytes → Str → Disk → Unlocked → Locked (Unit {0})
    decline_request nonce signing disk u =
        saved nonce (remove_pending signing u.data') (ok tt) disk u

    -- the command `remove_friend`
    unfoldable pub revoke_friend : Bytes → Str → Disk → Unlocked → Locked (Unit {0})
    revoke_friend nonce friend disk u = saved nonce (remove_friend friend u.data') (ok tt) disk u

    unfoldable pub set_settings : Bytes → Settings → Disk → Unlocked → Locked (Unit {0})
    set_settings nonce settings disk u =
        saved nonce (record u.data' { settings = settings }) (ok tt) disk u

    -- the frame of a message to a friend, and the message as it is kept
    unfoldable pub frame_for :
        ℕ → Bytes → Str → Str → VaultData → CoreResult (Packet × StoredMessage)
    frame_for now nonce friend body data' = do
      me ← identity data'
      friend_rec ← ok_or (friend_by_signing data' friend) unknown_sender
      let conv_id = direct_conversation_id (signing_hex me) friend
      current ← current_direct_key data' me friend_rec
      let seq = next_seq data' conv_id
      let frame = build_frame nonce me conv_id current.0 current.1 seq body
      ok (message frame, stored_outgoing now conv_id (signing_hex me) body seq none)

    unfoldable pub send_message :
        ℕ → Bytes → Bytes → Str → Str → Disk → Unlocked → Locked (StoredMessage × Outgoing)
    unfolding frame_for
    send_message now nonce save_nonce friend body disk u =
        tried disk u (frame_for now nonce friend body u.data') (λ made.
          let (packet, msg) = made in
          saved save_nonce (add_message msg u.data')
            (ok (msg, record { recipient = friend; packet = packet })) disk u)

    unfoldable pub group_frame_for :
        ℕ → Bytes → Str → Str → VaultData → CoreResult (Packet × StoredMessage × List Str)
    group_frame_for now nonce group_id body data' = do
      me ← identity data'
      g ← ok_or (group_by_id data' group_id) unknown_sender
      kg ← ok_or (group_key data' group_id) (crypto (text "no group key"))
      let seq = next_seq data' group_id
      let frame = build_frame nonce me group_id g.epoch kg seq body
      ok (
        message frame,
        stored_outgoing now group_id (signing_hex me) body seq none,
        map (λ m. m.signing_public) g.members,
      )

    unfoldable pub send_group_message :
        ℕ → Bytes → Bytes → Str → Str → Disk → Unlocked → Locked (StoredMessage × List Outgoing)
    unfolding group_frame_for
    send_group_message now nonce save_nonce group_id body disk u =
        tried disk u (group_frame_for now nonce group_id body u.data') (λ made.
          let (packet, msg, recipients) = made in
          saved save_nonce (add_message msg u.data')
            (ok (msg, map (λ r. record { recipient = r; packet = packet }) recipients)) disk u)
