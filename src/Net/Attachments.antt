-- ===== src/Net/Attachments.antt =====
-- apps/desktop/src-tauri/src/net.rs: the attachments that come in, as packets from the mailbox or over a file stream.
-- The events for the user interface and the debug lines are not here.
pub mod OneChunk
pub mod Chunks
pub mod Streamed
use seqr.Prelude.{
  ℕ, zero, suc, ◌+◌, Bytes, Str, text, Bool, true, false, List, [], ◌∷◌, Option, none, some,
  if◌then◌else◌, ltb,
}
use seqr.Prelude.Assoc.{Assoc, lookup, insert, remove}
use seqr.Prelude.Result.{Result, ok, err, ok_or, map_err, to_option, ◌>>=◌, ◌>>◌}
use seqr.Core.Attachment.{max_attachment}
use seqr.Core.Attachment.Files.{Files}
use seqr.Core.Attachment.Reassembly.{Reassembler, new, add_chunk, finalize}
use seqr.Core.Error.{CoreError, CoreResult, bad_profile, crypto, locked, storage, from_crypto}
use seqr.Core.Packet.{AttachmentMeta, AttachmentChunk, meta_signing_bytes}
use seqr.Core.Serde.{Serde}
use seqr.Core.Transport.{read_lp}
use seqr.Core.Vault.{VaultData, AttachmentInfo, StoredMessage, add_message, decode_array}
use seqr.Crypto.Error.{SymmetricKey}
use seqr.Crypto.Primitives.{Primitives}
use seqr.Crypto.Sign.{verify_raw}
use seqr.Net.{Unlocked, Session, Inbound, message, nothing, keep, with_unlocked, conv_key_for}

-- `SessionState`: the account, the data directory's path and the attachments' files, and the attachments on their
-- way
pub record Node : Type 0 where
  pub session : Session
  pub data_dir : Str
  pub files : Files
  pub reassembly : Assoc Reassembler

-- what the clock and the generator give a handler: the time, the nonce of the vault's save, and those of
-- an attachment's records
pub record Moment : Type 0 where
  pub now : ℕ
  pub nonce : Bytes
  pub at_rest : ℕ → Bytes

abbrev pub info_of : AttachmentMeta → AttachmentInfo
info_of meta = record {
  id = meta.att_id;
  filename = meta.filename;
  mime = meta.mime;
  size = meta.size;
}

-- the message that records an attachment
abbrev pub record_of : ℕ → Str → Str → ℕ → AttachmentInfo → StoredMessage
record_of now conversation_id sender seq info = record {
  conversation_id = conversation_id;
  sender = sender;
  body = [];
  ts = now;
  outgoing = false;
  seq = seq;
  attachment = some info;
}

module _ ⦃p : Primitives⦄ where
  -- the signature and the key of a header
  unfoldable pub check_meta : VaultData → AttachmentMeta → CoreResult SymmetricKey
  check_meta data' meta = do
    signer ← ok_or (decode_array 32 meta.sender) (bad_profile (text "bad sender"))
    sig ← ok_or (decode_array 64 meta.signature) (bad_profile (text "bad signature"))
    from_crypto (verify_raw signer (meta_signing_bytes meta) sig)
    conv_key_for data' meta.conversation_id meta.sender meta.epoch

  -- a header at the account, if it is unlocked
  abbrev pub made_by : Option Unlocked → AttachmentMeta → Node → Node × CoreResult Reassembler
  made_by none meta node = (node, err locked)
  made_by (some u) meta node = elim (check_meta u.data' meta) [
    | err e ↦ (node, err e)
    | ok key ↦
        let (files', made) =
          new node.data_dir (info_of meta) meta.conversation_id meta.sender meta.seq key u.vault_key
            meta.chunks node.files in
        (record node { files = files' }, made)
  ]

  unfoldable pub make_reassembler : AttachmentMeta → Node → Node × CoreResult Reassembler
  make_reassembler meta node =
      if ltb max_attachment meta.size
      then (node, err (storage (text "attachment exceeds size cap")))
      else made_by node.session.unlocked meta node

  unfoldable pub handle_attachment_meta : AttachmentMeta → Node → Node × CoreResult Inbound
  unfolding make_reassembler
  handle_attachment_meta meta node = elim (lookup meta.att_id node.reassembly) [
    | some _ ↦ (node, ok nothing)
    | none ↦
        let (node', made) = make_reassembler meta node in
        elim made [
          | err e ↦ (node', err e)
          | ok r ↦ (record node' { reassembly = insert meta.att_id r node'.reassembly }, ok nothing)
        ]
  ]

  module _ ⦃s : Serde⦄ where
    -- the message of a finished attachment, kept in the vault
    unfoldable pub record_message : Moment → StoredMessage → Node → Node × CoreResult Inbound
    record_message at msg node =
        let (session', r) =
          with_unlocked node.session
            (λ disk u. keep at.nonce (add_message msg u.data') (message msg) disk u) in
        (record node { session = session' }, r)

    -- a reassembler that is complete, at rest and in the history
    unfoldable pub finish : Moment → Reassembler → Node → Node × CoreResult Inbound
    unfolding record_message
    finish at r node =
        let (files', finalized) = finalize at.at_rest r node.files in
        let node' : Node = record node { files = files' } in
        elim finalized [
          | err e ↦ (node', err e)
          | ok info ↦
              record_message at (record_of at.now r.conversation_id r.sender r.seq info) node'
        ]

    -- a chunk at the reassembler that its identifier names
    unfoldable pub chunk_at :
        Moment → Str → ℕ → Bytes → Reassembler → Node → Node × CoreResult Inbound
    unfolding finish
    chunk_at at att_id index bytes r node =
        let (r', files', added) = add_chunk index bytes r node.files in
        let kept : Node = record node {
          files = files';
          reassembly = insert att_id r' node.reassembly;
        } in
        elim added [
          | err e ↦ (kept, err e)
          | ok false ↦ (kept, ok nothing)
          | ok true ↦
              finish at r'
                (record node { files = files'; reassembly = remove att_id node.reassembly })
        ]

    unfoldable pub handle_attachment_chunk :
        Moment → AttachmentChunk → Node → Node × CoreResult Inbound
    unfolding chunk_at
    handle_attachment_chunk at chunk node = elim (p.hex_decode chunk.data') [
      | none ↦ (node, err (crypto (text "bad chunk hex")))
      | some bytes ↦ elim (lookup chunk.att_id node.reassembly) [
        | none ↦ (node, ok nothing)
        | some r ↦ chunk_at at chunk.att_id chunk.index bytes r node
      ]
    ]

  -- the chunks of a file stream: whether the loop came to its end, also that of the stream, without a chunk
  -- that does not open
  unfoldable pub receive_chunks :
      Str → ℕ → ℕ → Bytes → Reassembler → Files → Reassembler × Files × Bool
  receive_chunks reason zero index stream r fs = (r, fs, true)
  receive_chunks reason (suc n) index stream r fs = elim (read_lp reason stream) [
    | err e ↦ (r, fs, true)
    | ok none ↦ (r, fs, true)
    | ok (some (chunk, stream')) ↦
        let (r', fs', added) = add_chunk index chunk r fs in
        elim added [
          | err e ↦ (r', fs', false)
          | ok _ ↦ receive_chunks reason n (index + 1) stream' r' fs'
        ]
  ]

  module _ ⦃s : Serde⦄ where
    -- behind the header
    unfoldable pub receive_attachment :
        Str → Moment → AttachmentMeta → Bytes → Node → Node × Option Inbound
    unfolding make_reassembler receive_chunks finish
    receive_attachment reason at meta stream node =
        let (node', made) = make_reassembler meta node in
        elim made [
          | err e ↦ (node', none)
          | ok r ↦
              let (r', fs', done) = receive_chunks reason meta.chunks 0 stream r node'.files in
              let node'' : Node = record node' { files = fs' } in
              if done
              then (let (end, stored) = finish at r' node'' in (end, to_option stored))
              else (node'', none)
        ]

    -- `handle_file_connection` of a stream: the event that it emits, if any. The header is read as a bare
    -- `AttachmentMeta`.
    unfoldable pub handle_file_connection :
        Str → (Bytes → Result Str AttachmentMeta) → Moment → Bytes → Node → Node × Option Inbound
    unfolding receive_attachment
    handle_file_connection reason meta_from_json at stream node = elim (read_lp reason stream) [
      | err e ↦ (node, none)
      | ok none ↦ (node, none)
      | ok (some (header, stream')) ↦ elim (meta_from_json header) [
        | err e ↦ (node, none)
        | ok meta ↦ receive_attachment reason at meta stream' node
      ]
    ]
