-- ===== src/Net/Attachments/Streamed.antt =====
-- An attachment that comes in over a file stream, behind its header.
use seqr.Prelude.{
  ℕ, zero, suc, ◌*◌, ◌^◌, ◌≤◌, ◌<◌, ◌≡◌, refl, sym, ap, ◌∙◌, subst, Bytes, Str, true, false, List,
  [], ◌++◌, none, some, length, arith, ltb, str_eq_iff,
}
use seqr.Prelude.Assoc.{lookup, insert, lookup-insert}
use seqr.Prelude.Result.{ok}
use seqr.Core.Attachment.{chunk_size, max_attachment}
use seqr.Core.Attachment.Files.{Files}
use seqr.Core.Attachment.Rest.{read_rest_bytes}
use seqr.Core.Attachment.Rest.RoundTrip.{SmallTag}
use seqr.Core.Attachment.Reassembly.{Reassembler, finalize, attachment_path}
use seqr.Core.Attachment.Reassembly.Complete.{arrive}
use seqr.Core.Attachment.Reassembly.Stored.{
  IsName, IsStored, fresh, new-fresh, finalize-arrive, finalize-whole, arrive_fixed,
  temp_path-other,
}
use seqr.Core.Packet.{AttachmentMeta}
use seqr.Core.Serde.{Serde}
use seqr.Core.Transport.{read_lp_end}
use seqr.Core.Vault.{add_message}
use seqr.Crypto.Aead.{nonce_len}
use seqr.Crypto.Error.{SymmetricKey}
use seqr.Crypto.Primitives.{Primitives, SchemeLaws}
use seqr.Net.{Unlocked}
use seqr.Net.Attachments.{
  Node, Moment, info_of, record_of, check_meta, made_by, make_reassembler, receive_chunks,
  receive_attachment, finish,
}
use seqr.Net.Attachments.OneChunk.{noted, record_message-unlocked}
use seqr.Net.Outgoing.Stream.{
  frames, wire, from, from-below, among-from, receive_chunks-sealed_chunks,
}

module _ ⦃p : Primitives⦄ ⦃s : Serde⦄ where
  -- what a header makes, with the key of its conversation
  abbrev pub started : Node → AttachmentMeta → SymmetricKey → Unlocked → Reassembler
  started node meta key u =
      fresh node.data_dir (info_of meta) meta.conversation_id meta.sender meta.seq key u.vault_key
        meta.chunks

  -- that an attachment was recorded: its file reads as the bytes, and its message ends the history
  abbrev pub IsRecorded : Moment → AttachmentMeta → Unlocked → Str → Bytes → Node → Type 0
  IsRecorded at meta u path whole node =
      (read_rest_bytes u.vault_key meta.att_id path node.files ≡ ok whole)
      × (node.session.unlocked
          ≡ some (record u {
            data' =
                add_message
                  (record_of at.now meta.conversation_id meta.sender meta.seq (info_of meta))
                  u.data';
          }))

  make_reassembler-started :
      (meta : AttachmentMeta) (node : Node) (u : Unlocked) (key : SymmetricKey)
      → meta.size ≤ max_attachment
      → node.session.unlocked ≡ some u
      → check_meta u.data' meta ≡ ok key
      → node.files.refuses ≡ none
      → let r = started node meta key u in
        make_reassembler meta node ≡ (
          record node {
            files = record node.files { files = insert r.temp_path [] node.files.files };
          },
          ok r,
        )
  unfolding make_reassembler
  make_reassembler-started meta node u key small open_now checked takes =
      let not_long : ltb max_attachment meta.size ≡ false = ground arith in
      let made =
        new-fresh node.data_dir (info_of meta) meta.conversation_id meta.sender meta.seq key
          u.vault_key meta.chunks node.files takes in
      rw (make_reassembler, not_long)
        (ap (λ o. made_by o meta node) open_now ∙ rw (made_by, checked) (rw made refl))

  receive_attachment-finish :
      (reason : Str) (at : Moment) (meta : AttachmentMeta) (stream : Bytes) (node node' : Node)
      (r r' : Reassembler) (fs' : Files)
      → make_reassembler meta node ≡ (node', ok r)
      → receive_chunks reason meta.chunks 0 stream r node'.files ≡ (r', fs', true)
      → (receive_attachment reason at meta stream node).0
        ≡ (finish at r' (record node' { files = fs' })).0
  unfolding receive_attachment
  receive_attachment-finish reason at meta stream node node' r r' fs' made received =
      rw (receive_attachment, made) (rw made (rw received refl))

  finish-IsRecorded :
      (at : Moment) (meta : AttachmentMeta) (node n : Node) (u : Unlocked) (key : SymmetricKey)
      (received : List ℕ) (whole : Bytes)
      → n.session.unlocked ≡ some u
      → let r = started node meta key u in
        IsStored whole r (finalize at.at_rest (record r { received = received }) n.files)
        → IsRecorded at meta u
            (attachment_path node.data_dir meta.att_id)
            whole
            (finish at (record r { received = received }) n).0
  unfolding finish
  finish-IsRecorded at meta node n u key received whole open_now (done, read, _) =
      let path = attachment_path node.data_dir meta.att_id in
      let files' =
        (finalize at.at_rest (record (started node meta key u) { received = received })
          n.files).0 in
      let (noted_once, same_files, _) =
        record_message-unlocked u at (noted at (started node meta key u))
          (record n { files = files' }) open_now in
      rw (finish, done)
        (ap (read_rest_bytes u.vault_key meta.att_id path) same_files ∙ read, noted_once)

  module _ (scheme : SchemeLaws p) (small : SmallTag p) (nonces : ℕ → Bytes)
      (twelve : (i : ℕ) → length (nonces i) ≡ nonce_len) (reason : Str) (at : Moment)
      (twelve_rest : (i : ℕ) → length (at.at_rest i) ≡ nonce_len) (meta : AttachmentMeta)
      (node : Node) (u : Unlocked) (key : SymmetricKey) (not_long : meta.size ≤ max_attachment)
      (open_now : node.session.unlocked ≡ some u) (checked : check_meta u.data' meta ≡ ok key)
      (takes : node.files.refuses ≡ none) (name : IsName meta.att_id) where
    -- An attachment whose frames come in over a file stream behind a header that its sender signed, all of
    -- them, is recorded: the file at rest is the sender's file, and one message more is in the history.
    pub receive_attachment-frames :
        (whole rest : Bytes)
        → meta.chunks < 2 ^ 32
        → length whole ≤ meta.chunks * chunk_size
        → let stream =
            wire (frames scheme small nonces twelve whole (started node meta key u) meta.chunks 0)
            ++ rest in
          IsRecorded at meta u
            (attachment_path node.data_dir meta.att_id)
            whole
            (receive_attachment reason at meta stream node).0
    receive_attachment-frames whole rest bound enough =
        let r = started node meta key u in
        let fs_new : Files = record node.files { files = insert r.temp_path [] node.files.files } in
        let order = from meta.chunks 0 in
        let end = arrive nonces whole order r fs_new in
        let made = make_reassembler-started meta node u key not_long open_now checked takes in
        let received =
          receive_chunks-sealed_chunks scheme small nonces twelve whole reason meta.chunks 0 rest r
            fs_new in
        let stored =
          subst
            (λ fs'. IsStored whole r (
              finalize at.at_rest (arrive nonces whole order r fs').0
                (arrive nonces whole order r fs').1))
            (ap (λ out. out.0)
              (new-fresh node.data_dir (info_of meta) meta.conversation_id meta.sender meta.seq key
                u.vault_key meta.chunks node.files takes))
            (finalize-arrive nonces whole scheme small twelve at.at_rest twelve_rest node.data_dir
              (info_of meta) meta.conversation_id meta.sender meta.seq key u.vault_key meta.chunks
              node.files order takes name bound enough
              (from-below meta.chunks 0 meta.chunks (omega arith))
              (λ i below. among-from meta.chunks 0 i (omega arith) (omega arith))).1 in
        let (same, _) = arrive_fixed nonces whole order r fs_new in
        let n : Node = record node { files = end.1 } in
        rw (receive_attachment-finish reason at meta _ node _ r end.0 end.1 made received) (
          subst
            (λ (q : Reassembler).
              IsRecorded at meta u (attachment_path node.data_dir meta.att_id) whole
                (finish at q n).0)
            (sym same)
            (finish-IsRecorded at meta node n u key end.0.received whole open_now (
              subst (λ (q : Reassembler). IsStored whole r (finalize at.at_rest q end.1)) same
                stored)))

    -- A stream that ends right behind its header is recorded as the whole attachment, with an empty file,
    -- whatever size the header gives.
    pub receive_attachment_cut :
        IsRecorded at meta u
          (attachment_path node.data_dir meta.att_id)
          []
          (receive_attachment reason at meta [] node).0
    unfolding receive_chunks
    receive_attachment_cut =
        let r = started node meta key u in
        let fs_new : Files = record node.files { files = insert r.temp_path [] node.files.files } in
        let made = make_reassembler-started meta node u key not_long open_now checked takes in
        let there : lookup r.temp_path fs_new.files ≡ some [] = ground (
          arith,
          lookup-insert r.temp_path r.temp_path [] node.files.files,
          str_eq_iff r.temp_path r.temp_path,
        ) in
        let stored =
          finalize-whole nonces [] scheme small twelve at.at_rest twelve_rest r fs_new takes there
            (temp_path-other node.data_dir meta.att_id name) in
        rw
          (receive_attachment-finish reason at meta [] node _ r r fs_new made
            (nothing_read meta.chunks r fs_new))
          (finish-IsRecorded at meta node (record node { files = fs_new }) u key [] [] open_now
            stored)
      where
        nothing_read :
            (n : ℕ) (r : Reassembler) (fs : Files)
            → receive_chunks reason n 0 [] r fs ≡ (r, fs, true)
        nothing_read zero r fs = refl
        nothing_read (suc n) r fs = rw (receive_chunks, read_lp_end reason [] (omega arith)) refl
