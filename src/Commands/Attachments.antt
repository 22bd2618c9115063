-- ===== src/Commands/Attachments.antt =====
-- commands.rs: the commands about attachments. Base64 is a parameter; the delivery is in Net/Outgoing.
pub mod OwnCopy
use seqr.Prelude.{
  ℕ, ◌+◌, ◌*◌, ◌==◌, Bytes, Str, text, Bool, true, false, not, ◌&&◌, ◌||◌, List, [], ◌∷◌, ◌++◌,
  Option, none, some, if◌then◌else◌, ltb, leb, length, retain, str_eq, is_ascii_digit,
}
use seqr.Prelude.Result.{Result, ok, err, ok_or, ◌>>=◌, ◌>>◌}
use seqr.Prelude.Unicode.{trim}
use seqr.Core.Attachment.{max_attachment, chunk_count, guess_mime, new_attachment_id}
use seqr.Core.Attachment.Files.{Files, open_file, create_file, overwrite, join_path, file_name}
use seqr.Core.Attachment.Reassembly.{attachment_path}
use seqr.Core.Attachment.Rest.{encrypt_file_to_rest, decrypt_rest_to_writer, read_rest_bytes}
use seqr.Core.Error.{CoreError, CoreResult, storage, locked}
use seqr.Core.Packet.{AttachmentMeta, meta_signing_bytes}
use seqr.Core.Serde.{Serde}
use seqr.Core.Vault.{VaultData, StoredMessage, AttachmentInfo, add_message, next_seq, identity}
use seqr.Core.VaultFile.{save}
use seqr.Crypto.Error.{SymmetricKey}
use seqr.Crypto.Primitives.{Primitives}
use seqr.Crypto.Sign.{sign}
use seqr.Commands.{signing_hex, stored_outgoing}
use seqr.Commands.Groups.{resolve_send_ctx, valid_att_id}
use seqr.Net.{Session, Unlocked}
use seqr.Net.Attachments.{Node, Moment, info_of}

-- what `send_attachment` hands to the delivery
pub record Announced : Type 0 where
  pub stored : StoredMessage
  pub meta : AttachmentMeta
  pub recipients : List Str
  pub key : SymmetricKey

-- the name, type, size and number of chunks of a file
abbrev pub unsigned_meta : Str → Str → ℕ → Str → Str → ℕ → ℕ → AttachmentMeta
unsigned_meta att_id conversation_id epoch sender filename size seq = record {
  att_id = att_id;
  conversation_id = conversation_id;
  epoch = epoch;
  sender = sender;
  seq = seq;
  filename = filename;
  mime = guess_mime filename;
  size = size;
  chunks = chunk_count size;
  signature = [];
}

-- the `find_map` of `read_attachment`: the type and the size of the first attachment with the id
unfoldable pub attachment_named : Str → List StoredMessage → Option AttachmentInfo
attachment_named att_id [] = none
attachment_named att_id (m ∷ ms) = elim m.attachment [
  | none ↦ attachment_named att_id ms
  | some a ↦ let rest = attachment_named att_id ms in if str_eq a.id att_id then some a else rest
]

-- `is_ascii_alphanumeric`, and the other characters that a pasted file's name keeps
unfoldable pub is_safe : ℕ → Bool
is_safe c =
    is_ascii_digit c
    || ((leb b'a' c && leb c b'z')
        || ((leb b'A' c && leb c b'Z')
            || ((c == b'.') || ((c == b'-') || ((c == b'_') || (c == b' '))))))

-- the sanitised name of a pasted file
unfoldable pub safe_name : Str → Str
unfolding is_safe
safe_name filename =
    let name : Str = elim (file_name filename) [ none ↦ text "pasted" | some n ↦ n ] in
    let safe = retain is_safe name in if str_eq (trim safe) [] then text "pasted" else safe

module _ ⦃p : Primitives⦄ where
  -- the signed header and the stored message of an attachment, under the session's lock
  unfoldable pub announce : ℕ → Str → Str → Str → ℕ → VaultData → CoreResult Announced
  announce now att_id conversation_id filename size data' = do
    me ← identity data'
    let my_signing = signing_hex me
    ctx ← resolve_send_ctx data' conversation_id my_signing
    let seq = next_seq data' conversation_id
    let bare = unsigned_meta att_id conversation_id ctx.1 my_signing filename size seq
    let meta : AttachmentMeta = record bare {
      signature = p.hex_encode (sign me.signing_key (meta_signing_bytes bare));
    }
    ok (record {
      stored = stored_outgoing now conversation_id my_signing [] seq (some (info_of meta));
      meta = meta;
      recipients = ctx.2;
      key = ctx.0;
    })

  module _ ⦃s : Serde⦄ where
    -- the message kept in the vault, then the sender's own copy at rest
    unfoldable pub keep_copy :
        Moment → Str → Announced → Unlocked → Node → Node × CoreResult Announced
    keep_copy at src announced u node =
        let data' = add_message announced.stored u.data' in
        let (disk', saved) = save node.session.disk at.nonce u.vault_key data' in
        let session' : Session = record {
          disk = disk';
          unlocked = some (record u { data' = data' });
        } in
        elim saved [
          | err e ↦ (record node { session = session' }, err e)
          | ok _ ↦
              let att_id = announced.meta.att_id in
              let (files', encrypted) =
                encrypt_file_to_rest at.at_rest u.vault_key att_id src
                  (attachment_path node.data_dir att_id) node.files in
              (record node { session = session'; files = files' }, (do encrypted; ok announced))
        ]

    -- a file of a name and size at the account, if it is unlocked
    abbrev pub send_from :
        Moment → Bytes → Str → Str → Str → ℕ → Option Unlocked → Node → Node × CoreResult Announced
    send_from at random conversation_id src filename size none node = (node, err locked)
    send_from at random conversation_id src filename size (some u) node =
        elim (announce at.now (new_attachment_id random) conversation_id filename size u.data') [
          | err e ↦ (node, err e)
          | ok announced ↦ keep_copy at src announced u node
        ]

    unfoldable pub send_attachment : Moment → Bytes → Str → Str → Node → Node × CoreResult Announced
    send_attachment at random conversation_id src node = elim (open_file src node.files) [
      | err e ↦ (node, err e)
      | ok input ↦
          let filename : Str = elim (file_name src) [ none ↦ text "file" | some n ↦ n ] in
          if ltb max_attachment (length input)
          then (node, err (storage (text "file exceeds the 1 GB limit")))
          else send_from at random conversation_id src filename (length input) node.session.unlocked
              node
    ]

  -- what `read_attachment` shows of a file: its type and its bytes
  unfoldable pub preview : Str → Node → Unlocked → CoreResult (Str × Bytes)
  preview att_id node u =
      let (mime, size) : Str × ℕ = elim (attachment_named att_id u.data'.messages) [
        | none ↦ (text "application/octet-stream", 0)
        | some a ↦ (a.mime, a.size)
      ] in
      if ltb (16 * 1024 * 1024) size
      then err (storage (text "too large to preview inline"))
      else (do
        bytes ← read_rest_bytes u.vault_key att_id (attachment_path node.data_dir att_id) node.files
        ok (mime, bytes))

  unfoldable pub read_attachment : (Bytes → Str) → Str → Node → CoreResult Str
  unfolding preview
  read_attachment base64 att_id node =
      if valid_att_id att_id
      then elim node.session.unlocked [
        | none ↦ err locked
        | some u ↦ (do
          shown ← preview att_id node u
          ok (text "data:" ++ (shown.0 ++ (text ";base64," ++ base64 shown.1))))
      ]
      else err (storage (text "bad attachment id"))

  unfoldable pub stage_pasted_file :
      (Str → Option Bytes) → Bytes → Str → Str → Node → Node × CoreResult Str
  unfolding safe_name
  stage_pasted_file base64_decode random filename data' node = elim (base64_decode data') [
    | none ↦ (node, err (storage (text "bad clipboard data")))
    | some bytes ↦
        let path =
          join_path (join_path node.data_dir (text "paste-tmp"))
            (new_attachment_id random ++ (text "-" ++ safe_name filename)) in
        let (files', created) = create_file path node.files in
        elim created [
          | err e ↦ (record node { files = files' }, err e)
          | ok _ ↦ (record node { files = overwrite path bytes files' }, ok path)
        ]
  ]

  unfoldable pub save_attachment : Str → Str → Node → Node × CoreResult (Unit {0})
  save_attachment att_id dest node =
      if valid_att_id att_id
      then elim node.session.unlocked [
        | none ↦ (node, err locked)
        | some u ↦
            let (files', created) = create_file dest node.files in
            elim created [
              | err e ↦ (record node { files = files' }, err e)
              | ok _ ↦
                  let (out, r) =
                    decrypt_rest_to_writer u.vault_key att_id (attachment_path node.data_dir att_id)
                      files' in
                  (record node { files = overwrite dest out files' }, r)
            ]
      ]
      else (node, err (storage (text "bad attachment id")))
