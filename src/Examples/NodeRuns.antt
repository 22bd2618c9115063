-- ===== src/Examples/NodeRuns.antt =====
-- Two accounts and a mailbox at work: an attachment on a file stream, a turn of the poll loop, and the account's
-- commands, and the theorems on them.
use seqr.Prelude.{
  All-replicate, ℕ, ◌<◌, ◌≡◌, refl, Bytes, Str, text, true, [], ◌∷◌, ◌++◌, none, some, replicate,
  join, decimal, arith, str_eq, map, retain,
}
use seqr.Prelude.Assoc.{lookup}
use seqr.Prelude.Result.{ok, err}
use seqr.Core.Attachment.{new_attachment_id, guess_mime}
use seqr.Core.Attachment.Files.{join_path, file_name}
use seqr.Core.Attachment.Reassembly.{attachment_path}
use seqr.Core.Conversation.{direct_key_for_epoch}
use seqr.Crypto.Agreement.{derive_pairwise_bytes}
use seqr.Core.Error.{CoreResult}
use seqr.Core.Packet.{AttachmentMeta, meta_signing_bytes}
use seqr.Core.Vault.{
  add_message, next_seq, identity, decode32, group_by_id, friend_by_signing, group_key,
}
use seqr.Crypto.Keys.{secret_bytes, from_secret_bytes, public}
use seqr.Crypto.Sign.{sign, verify_raw}
use seqr.Examples.AttachmentRuns.{
  info-IsName, toy_small, info, nonces, nonces-length, whole, moment,
}
use seqr.Examples.PeerRuns.{alice, alice_card, nonce, shared, account, disk, new_key}
use seqr.Examples.Toy.{toy_files, toy, toy_hex, toy_scheme, toy_serde}
use seqr.Net.{Session, conv_key_for}
use seqr.Net.Attachments.{record_of, Node, Moment, check_meta, receive_attachment}
use seqr.Net.Attachments.Streamed.{
  IsRecorded, started, receive_attachment-frames, receive_attachment_cut,
}
use seqr.Net.Outgoing.Stream.{wire, frames}
use seqr.Core.Identity.{profile_for}
use seqr.Core.VaultFile.{save, read_file, write_sealed}
use seqr.Commands.Account.{create_account, unlock, lock, opened_account, unlock-lock}
use seqr.Commands.Attachments.{
  Announced, announce, attachment_named, send_attachment, read_attachment,
}
use seqr.Commands.Attachments.OwnCopy.{sent_name, read_attachment-send_attachment}
use seqr.Commands.Groups.{resolve_send_ctx, valid_att_id}
use seqr.Examples.CommandRuns.{alice_account, saved_disk}
use seqr.Examples.MailboxRuns.{
  one_message-readable, alice_id, random, state, in_step, one_message-IsStamped,
  one_message-writable,
}
use seqr.Examples.VaultRuns.{draws, data', no_vault, password, key, key-derived, sealable}
use seqr.Mailbox.Store.Ack.{unlisted}
use seqr.Mailbox.Store.Queue.{queue_of}
use seqr.Net.Poll.{is_unlocked, current_identity, process_all, poll_turn}
use seqr.Net.Poll.Drained.{over_http, batch, poll_turn-queue}
use seqr.Protocol.{ProfileBlob, version}

abbrev bare : AttachmentMeta
bare = record {
  att_id = text "ab";
  conversation_id = text "c";
  epoch = 0;
  sender = alice_card.signing_public;
  seq = 5;
  filename = text "a.txt";
  mime = text "text/plain";
  size = 3;
  chunks = 1;
  signature = [];
}

abbrev header : AttachmentMeta
header = record bare {
  signature = toy.hex_encode (sign ⦃p = toy⦄ alice.signing_key (meta_signing_bytes bare));
}

-- Bob's account, without attachments
abbrev node : Node
node = record {
  session = record { disk = disk; unlocked = some account };
  data_dir = text "/d";
  files = record { files = []; refuses = none };
  reassembly = [];
}

header-checked : check_meta ⦃p = toy⦄ account.data' header ≡ ok shared
unfolding check_meta conv_key_for identity decode32 from_secret_bytes group_by_id friend_by_signing
    str_eq public verify_raw sign meta_signing_bytes join decimal direct_key_for_epoch
    derive_pairwise_bytes
header-checked = refl

receive_attachment-frames_example :
    let stream =
      wire (
        frames ⦃p = toy⦄ toy_scheme toy_small nonces nonces-length whole
          (started ⦃p = toy⦄ ⦃s = toy_serde⦄ node header shared account)
          1
          0)
      ++ [] in
    IsRecorded ⦃p = toy⦄ ⦃s = toy_serde⦄ moment header account
      (attachment_path (text "/d") (text "ab"))
      whole
      (receive_attachment ⦃p = toy⦄ ⦃s = toy_serde⦄ (text "cut") moment header stream node).0
receive_attachment-frames_example =
    receive_attachment-frames ⦃p = toy⦄ ⦃s = toy_serde⦄ toy_scheme toy_small nonces nonces-length
      (text "cut") moment nonces-length header node account shared (omega arith) refl header-checked
      refl info-IsName whole [] (omega arith) (omega arith)

receive_attachment_cut_example :
    IsRecorded ⦃p = toy⦄ ⦃s = toy_serde⦄ moment header account
      (attachment_path (text "/d") (text "ab"))
      []
      (receive_attachment ⦃p = toy⦄ ⦃s = toy_serde⦄ (text "cut") moment header [] node).0
receive_attachment_cut_example =
    receive_attachment_cut ⦃p = toy⦄ ⦃s = toy_serde⦄ toy_scheme toy_small nonces nonces-length
      (text "cut") moment nonces-length header node account shared (omega arith) refl header-checked
      refl info-IsName

-- Alice's account, which polls
abbrev alice_node : Node
alice_node = record {
  session = record { disk = saved_disk; unlocked = some alice_account };
  data_dir = text "/d";
  files = record { files = (text "/tmp/a.txt", whole) ∷ []; refuses = none };
  reassembly = [];
}

alice-current : current_identity ⦃p = toy⦄ alice_node ≡ some alice
unfolding current_identity identity decode32 from_secret_bytes secret_bytes
alice-current = refl

alice-unlocked : is_unlocked alice_node ≡ true
unfolding is_unlocked
alice-unlocked = refl

abbrev moments : ℕ → Moment
moments i = moment

poll_turn-queue_example :
    let turn =
      poll_turn ⦃p = toy⦄ ⦃s = toy_serde⦄
        (over_http ⦃p = toy⦄ 5000 random)
        2000
        2000
        moments
        state
        alice_node in
    (turn.goes_on ≡ true)
    × (turn.node'
        ≡ (process_all ⦃p = toy⦄ ⦃s = toy_serde⦄ moments 0
            (batch ⦃p = toy⦄ toy_hex toy_scheme alice state)
            alice_node).0)
    × (turn.produced
        ≡ (process_all ⦃p = toy⦄ ⦃s = toy_serde⦄ moments 0
            (batch ⦃p = toy⦄ toy_hex toy_scheme alice state)
            alice_node).1)
    × (queue_of turn.server'.store alice_id
        ≡ retain
            (unlisted (map (λ m. m.id) (batch ⦃p = toy⦄ toy_hex toy_scheme alice state)))
            (queue_of state.store alice_id))
poll_turn-queue_example =
    poll_turn-queue ⦃p = toy⦄ toy_hex toy_scheme alice ⦃s = toy_serde⦄ 5000 1000 random 2000 2000
      moments state alice_node alice-unlocked alice-current in_step in_step one_message-IsStamped
      one_message-writable one_message-readable

abbrev started_ok : Bytes → CoreResult (Unit {0})
started_ok signing = ok tt

abbrev no_account : Session
no_account = record { disk = no_vault; unlocked = none }

abbrev new_profile : ProfileBlob
new_profile = record {
  v = version;
  display_name = text "Alice";
  agreement_public = toy.hex_encode (toy.x25519_public (replicate 32 7));
  signing_public = toy.hex_encode (toy.ed25519_public (replicate 32 9));
  node_addr = [];
}

new-opened : opened_account ⦃p = toy⦄ data' ≡ ok (new_profile, replicate 32 9)
unfolding profile_for identity decode32 from_secret_bytes secret_bytes public
new-opened = refl

unlock-lock_example :
    let (session', r) =
      create_account ⦃p = toy⦄ ⦃s = toy_serde⦄ started_ok draws
        (text "Alice")
        password
        no_account in
    (session'.unlocked ≡ some (record { vault_key = key; data' = data' }))
    × (r ≡ ok new_profile)
    × (unlock ⦃p = toy⦄ ⦃s = toy_serde⦄ started_ok password (lock session') ≡ (session', r))
unlock-lock_example =
    unlock-lock ⦃p = toy⦄ ⦃s = toy_serde⦄ toy_hex toy_scheme toy_files started_ok draws
      (text "Alice") password key no_account new_profile (replicate 32 9)
      (sealable draws.salt (All-replicate (λ b. b < 256) 16 4 (omega arith))) key-derived new-opened
      refl refl

abbrev att_random : Bytes
att_random = replicate 32 5

abbrev att_id : Str
att_id = new_attachment_id ⦃p = toy⦄ att_random

abbrev said : CoreResult Announced
said = announce ⦃p = toy⦄ 7 att_id (text "g") (text "a.txt") 3 alice_account.data'

abbrev announced : Announced
announced = elim said [
  | ok a ↦ a
  | err e ↦ record { stored = record_of 0 [] [] 0 info; meta = bare; recipients = []; key = [] }
]

said-ok :
    announce ⦃p = toy⦄ 7 att_id (text "g") (sent_name (text "/tmp/a.txt")) 3 alice_account.data'
    ≡ ok announced
unfolding announce identity decode32 from_secret_bytes resolve_send_ctx group_by_id str_eq next_seq
    file_name group_key
said-ok = refl

saved-ok :
    (save ⦃p = toy⦄ ⦃s = toy_serde⦄ saved_disk nonce new_key
      (add_message announced.stored alice_account.data')).1
    ≡ ok tt
unfolding save read_file write_sealed add_message
saved-ok = refl

read_attachment-send_attachment_example :
    let (node', sent) =
      send_attachment ⦃p = toy⦄ ⦃s = toy_serde⦄ moment att_random
        (text "g")
        (text "/tmp/a.txt")
        alice_node in
    (sent ≡ ok announced)
    × (read_attachment ⦃p = toy⦄ toy.hex_encode att_id node'
        ≡ ok (
            text "data:"
            ++ (guess_mime (text "a.txt") ++ (text ";base64," ++ toy.hex_encode whole))))
unfolding lookup str_eq file_name new_attachment_id valid_att_id attachment_path join_path
    attachment_named
read_attachment-send_attachment_example =
    read_attachment-send_attachment ⦃p = toy⦄ ⦃s = toy_serde⦄ toy_scheme toy_small moment att_random
      (text "g") (text "/tmp/a.txt") toy.hex_encode alice_node alice_account whole announced
      nonces-length refl (omega arith) refl refl refl refl (ground arith) said-ok saved-ok
