-- ===== src/Core/Attachment/Reassembly.antt =====
-- core/attachment.rs: the reassembly of an attachment from its chunks, in a temporary file. The directory of the
-- attachments is taken to be there.
pub mod AnyOrder
pub mod Complete
pub mod Stored
use seqr.Prelude.{
  ℕ, ◌*◌, ◌%◌, ◌^◌, Bytes, Str, text, Bool, List, [], ◌∷◌, ◌==◌, length, if◌then◌else◌,
}
use seqr.Prelude.Positions.{among}
use seqr.Prelude.Result.{ok, err}
use seqr.Core.Error.{CoreResult}
use seqr.Core.Attachment.{chunk_size, open_chunk}
use seqr.Core.Attachment.Files.{
  Files, contents, create_file, overwrite, remove_file, write_at, join_path, with_extension,
}
use seqr.Core.Attachment.Rest.{encrypt_file_to_rest}
use seqr.Core.Vault.{AttachmentInfo}
use seqr.Crypto.Error.{SymmetricKey}
use seqr.Crypto.Primitives.{Primitives}

unfoldable pub attachments_dir : Str → Str
attachments_dir data_dir = join_path data_dir (text "attachments")

unfoldable pub attachment_path : Str → Str → Str
unfolding attachments_dir
attachment_path data_dir att_id = join_path (attachments_dir data_dir) att_id

-- the open file is the temporary path
pub record Reassembler : Type 0 where
  pub info : AttachmentInfo
  pub conversation_id : Str
  pub sender : Str
  pub seq : ℕ
  pub key : SymmetricKey
  pub vault_key : SymmetricKey
  pub expected : ℕ
  pub received : List ℕ
  pub temp_path : Str
  pub final_path : Str

-- `Reassembler::new`
unfoldable pub new :
    Str
    → AttachmentInfo
    → Str
    → Str
    → ℕ
    → SymmetricKey
    → SymmetricKey
    → ℕ
    → Files
    → Files × CoreResult Reassembler
unfolding attachment_path
new data_dir info conversation_id sender seq key vault_key expected fs =
    let final_path = attachment_path data_dir info.id in
    let temp_path = with_extension (text "part") final_path in
    let (fs', created) = create_file temp_path fs in
    elim created [
      | err e ↦ (fs', err e)
      | ok _ ↦ (
        fs',
        ok (record {
          info = info;
          conversation_id = conversation_id;
          sender = sender;
          seq = seq;
          key = key;
          vault_key = vault_key;
          expected = expected;
          received = [];
          temp_path = temp_path;
          final_path = final_path;
        }),
      )
    ]

-- whether as many chunks came as are expected; the count is cast to a `u32`
abbrev pub is_complete : Reassembler → Bool
is_complete r = length r.received % 2 ^ 32 == r.expected

module _ ⦃p : Primitives⦄ where
  unfoldable pub add_chunk : ℕ → Bytes → Reassembler → Files → Reassembler × Files × CoreResult Bool
  add_chunk index ciphertext r fs =
      if among index r.received
      then (r, fs, ok (is_complete r))
      else elim (open_chunk r.key r.info.id index ciphertext) [
        | err e ↦ (r, fs, err e)
        | ok plain ↦
            let file = write_at (index * chunk_size) plain (contents r.temp_path fs) in
            let r' = record r { received = index ∷ r.received } in
            (r', overwrite r.temp_path file fs, ok (is_complete r'))
      ]

  -- The nonces are those of the seals at rest.
  unfoldable pub finalize : (ℕ → Bytes) → Reassembler → Files → Files × CoreResult AttachmentInfo
  finalize nonces r fs =
      let (fs', encrypted) =
        encrypt_file_to_rest nonces r.vault_key r.info.id r.temp_path r.final_path fs in
      elim encrypted [ err e ↦ (fs', err e) | ok _ ↦ (remove_file r.temp_path fs', ok r.info) ]
