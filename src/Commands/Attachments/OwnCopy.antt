-- ===== src/Commands/Attachments/OwnCopy.antt =====
-- What the sender of an attachment sees of it.
use seqr.Prelude.{
  ℕ, ◌*◌, ◌≤◌, ◌≡◌, ◌≢◌, refl, sym, ap, ◌∙◌, subst, Bytes, Str, text, true, false, List, [], ◌∷◌,
  ◌++◌, none, some, length, arith, ltb, str_eq_iff,
}
use seqr.Prelude.Assoc.{lookup}
use seqr.Prelude.Result.{ok, err, >>=-eq-ok}
use seqr.Core.Attachment.{max_attachment, guess_mime, new_attachment_id}
use seqr.Core.Attachment.Files.{file_name}
use seqr.Core.Attachment.Reassembly.{attachment_path}
use seqr.Core.Attachment.Rest.{encrypt_file_to_rest, read_rest_bytes}
use seqr.Core.Attachment.Rest.RoundTrip.{SmallTag, read_rest_bytes-encrypt_file_to_rest}
use seqr.Core.Error.{CoreResult}
use seqr.Core.Serde.{Serde}
use seqr.Core.Vault.{VaultData, StoredMessage, AttachmentInfo, add_message, identity}
use seqr.Core.VaultFile.{save}
use seqr.Crypto.Aead.{nonce_len}
use seqr.Crypto.Primitives.{Primitives, SchemeLaws}
use seqr.Commands.{signing_hex, stored_outgoing}
use seqr.Commands.Groups.{resolve_send_ctx, valid_att_id}
use seqr.Commands.Attachments.{
  Announced, announce, attachment_named, send_attachment, send_from, keep_copy, preview,
  read_attachment,
}
use seqr.Net.{Session, Unlocked}
use seqr.Net.Attachments.{Node, Moment}

-- the name that a file is sent under
abbrev pub sent_name : Str → Str
sent_name src = elim (file_name src) [ none ↦ text "file" | some n ↦ n ]

-- what is recorded of an attachment
abbrev pub info_named : Str → Str → ℕ → AttachmentInfo
info_named id filename size = record {
  id = id;
  filename = filename;
  mime = guess_mime filename;
  size = size;
}

attachment_named-append :
    (id : Str) (ms : List StoredMessage) (m : StoredMessage) (a : AttachmentInfo)
    → attachment_named id ms ≡ none
    → m.attachment ≡ some a
    → a.id ≡ id
    → attachment_named id (ms ++ m ∷ []) ≡ some a
unfolding attachment_named
attachment_named-append id [] m a h e same = rw e (ground (arith, str_eq_iff a.id id, same))
attachment_named-append id (n ∷ ms) m a h e same =
    ground (arith, attachment_named-append id ms m a, h, e, same)

module _ ⦃p : Primitives⦄ where
  announce-fields :
      (now : ℕ) (id conversation_id filename : Str) (size : ℕ) (d : VaultData) (a : Announced)
      → announce now id conversation_id filename size d ≡ ok a
      → (a.meta.att_id ≡ id) × (a.stored.attachment ≡ some (info_named id filename size))
  unfolding announce stored_outgoing
  announce-fields now id conversation_id filename size d a h =
      let (me, _, rest) = >>=-eq-ok (identity d) _ h in
      let (ctx, _, done) = >>=-eq-ok (resolve_send_ctx d conversation_id (signing_hex me)) _ rest in
      (
        sym (ap (λ r. (picked r).meta.att_id) done),
        sym (ap (λ r. (picked r).stored.attachment) done),
      )
    where
      picked : CoreResult Announced → Announced
      picked (ok b) = b
      picked (err e) = a

  module _ ⦃s : Serde⦄ (scheme : SchemeLaws p) (small : SmallTag p) where
    send_attachment-keep_copy :
        (at : Moment) (random : Bytes) (conversation_id src : Str) (node : Node) (u : Unlocked)
        (input : Bytes) (announced : Announced)
        → lookup src node.files.files ≡ some input
        → length input ≤ max_attachment
        → node.session.unlocked ≡ some u
        → announce at.now
            (new_attachment_id random)
            conversation_id
            (sent_name src)
            (length input)
            u.data'
          ≡ ok announced
        → send_attachment at random conversation_id src node ≡ keep_copy at src announced u node
    unfolding send_attachment
    send_attachment-keep_copy at random conversation_id src node u input announced there short
          open_now said =
        let fits : ltb max_attachment (length input) ≡ false = ground arith in
        rw (send_attachment, there)
          (rw fits (
            ap (λ o. send_from at random conversation_id src (sent_name src) (length input) o node)
              open_now
            ∙ rw (send_from, said) refl))

    -- the session that keeps a message
    abbrev session_with : Moment → StoredMessage → Unlocked → Node → Session
    session_with at msg u node =
        let data' = add_message msg u.data' in
        record {
          disk = (save node.session.disk at.nonce u.vault_key data').0;
          unlocked = some (record u { data' = data' });
        }

    keep_copy-ok :
        (at : Moment) (src : Str) (announced : Announced) (u : Unlocked) (node : Node)
        → (save node.session.disk at.nonce u.vault_key (add_message announced.stored u.data')).1
          ≡ ok tt
        → let id = announced.meta.att_id in
          let (files', encrypted) =
            encrypt_file_to_rest at.at_rest u.vault_key id src
              (attachment_path node.data_dir id)
              node.files in
          encrypted ≡ ok tt
          → keep_copy at src announced u node ≡ (
            record node { session = session_with at announced.stored u node; files = files' },
            ok announced,
          )
    unfolding keep_copy
    keep_copy-ok at src announced u node saved encrypted = rw (keep_copy, saved) (rw encrypted refl)

    preview-named :
        (id : Str) (node : Node) (u : Unlocked) (a : AttachmentInfo) (input : Bytes)
        → attachment_named id u.data'.messages ≡ some a
        → a.size ≤ 16 * 1024 * 1024
        → read_rest_bytes u.vault_key id (attachment_path node.data_dir id) node.files ≡ ok input
        → preview id node u ≡ ok (a.mime, input)
    unfolding preview
    preview-named id node u a input named short read =
        let fits : ltb (16 * 1024 * 1024) a.size ≡ false = ground arith in
        rw (preview, named) (rw fits (rw read refl))

    read_attachment-preview :
        (base64 : Bytes → Str) (id : Str) (node : Node) (session : Session) (u : Unlocked)
        (mime : Str) (input : Bytes)
        → valid_att_id id ≡ true
        → session.unlocked ≡ some u
        → preview id (record node { session = session }) u ≡ ok (mime, input)
        → read_attachment base64 id (record node { session = session })
          ≡ ok (text "data:" ++ (mime ++ (text ";base64," ++ base64 input)))
    unfolding read_attachment
    read_attachment-preview base64 id node session u mime input valid open_now shown =
        rw (read_attachment, valid) (rw (read_attachment, open_now) (rw shown refl))

    -- The sender of an attachment of at most 16 MiB that was accepted sees in its preview the file that was sent
    -- and the type by its name, if no other attachment of the history has the identifier.
    pub read_attachment-send_attachment :
        (at : Moment) (random : Bytes) (conversation_id src : Str) (base64 : Bytes → Str)
        (node : Node) (u : Unlocked) (input : Bytes) (announced : Announced)
        → ((i : ℕ) → length (at.at_rest i) ≡ nonce_len)
        → lookup src node.files.files ≡ some input
        → length input ≤ 16 * 1024 * 1024
        → node.files.refuses ≡ none
        → node.session.unlocked ≡ some u
        → valid_att_id (new_attachment_id random) ≡ true
        → attachment_named (new_attachment_id random) u.data'.messages ≡ none
        → src ≢ attachment_path node.data_dir (new_attachment_id random)
        → announce at.now
            (new_attachment_id random)
            conversation_id
            (sent_name src)
            (length input)
            u.data'
          ≡ ok announced
        → (save node.session.disk at.nonce u.vault_key (add_message announced.stored u.data')).1
          ≡ ok tt
        → let (node', sent) = send_attachment at random conversation_id src node in
          (sent ≡ ok announced)
          × (read_attachment base64 (new_attachment_id random) node'
              ≡ ok (
                  text "data:"
                  ++ (guess_mime (sent_name src) ++ (text ";base64," ++ base64 input))))
    read_attachment-send_attachment at random conversation_id src base64 node u input announced
          twelve there short takes open_now valid no_other apart said saved =
        let id = new_attachment_id random in
        let (same_id, named) =
          announce-fields at.now id conversation_id (sent_name src) (length input) u.data' announced
            said in
        let (done, read, _) =
          read_rest_bytes-encrypt_file_to_rest scheme small at.at_rest twelve u.vault_key id src
            (attachment_path node.data_dir id) node.files input takes there apart in
        let files' =
          (encrypt_file_to_rest at.at_rest u.vault_key id src (attachment_path node.data_dir id)
            node.files).0 in
        let sent =
          send_attachment-keep_copy at random conversation_id src node u input announced there
            (omega arith) open_now said in
        let kept = keep_copy-ok at src announced u node saved (
          subst
            (λ i.
              (encrypt_file_to_rest at.at_rest u.vault_key i src (attachment_path node.data_dir i)
                node.files).1
              ≡ ok tt)
            (sym same_id) done) in
        let u' : Unlocked = record u { data' = add_message announced.stored u.data' } in
        let node' : Node = record node {
          session = session_with at announced.stored u node;
          files = files';
        } in
        let shown =
          preview-named id node' u' (info_named id (sent_name src) (length input)) input
            (unfold add_message in
              attachment_named-append id u.data'.messages announced.stored _ no_other named refl)
            short read in
        let kept' : keep_copy at src announced u node ≡ (node', ok announced) =
          subst
            (λ i. keep_copy at src announced u node ≡ (
              record node {
                session = session_with at announced.stored u node;
                files =
                    (encrypt_file_to_rest at.at_rest u.vault_key i src
                      (attachment_path node.data_dir i) node.files).0;
              },
              ok announced,
            ))
            same_id kept in
        rw (sent ∙ kept') (
          refl,
          read_attachment-preview base64 id (record node { files = files' }) node'.session u' _
              input valid refl shown,
        )
