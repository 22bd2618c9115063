-- ===== src/Core/Attachment/Reassembly/Stored.antt =====
-- From the first header to the file at rest.
use seqr.Prelude.{
  ℕ, ◌*◌, ◌^◌, ◌≤◌, ◌<◌, ◌≡◌, ◌≢◌, refl, sym, ap, ◌∙◌, subst, Bytes, Str, text, true, List, [], ◌∷◌,
  ◌++◌, none, some, length, All, arith, Bool-cases, Option-cases, inl, inr, Lacks, str_eq_iff,
  length-append,
}
use seqr.Prelude.Assoc.{lookup, insert, lookup-insert, lookup-remove}
use seqr.Prelude.Positions.{among}
use seqr.Prelude.Result.{ok, Result-cases}
use seqr.Core.Error.{CoreResult}
use seqr.Core.Attachment.{chunk_size, open_chunk}
use seqr.Core.Attachment.Files.{
  Files, create_file-takes, overwrite, remove_file, with_extension, join_path,
  with_extension-join_path,
}
use seqr.Core.Attachment.Rest.{decrypt_rest_to_writer, encrypt_file_to_rest, read_rest_bytes}
use seqr.Core.Attachment.Rest.RoundTrip.{SmallTag, read_rest_bytes-encrypt_file_to_rest}
use seqr.Core.Attachment.Reassembly.{
  Reassembler, new, add_chunk, is_complete, finalize, attachment_path, attachments_dir,
}
use seqr.Core.Attachment.Reassembly.Complete.{IsPartial, arrive, arrive_complete, sent}
use seqr.Core.Vault.{AttachmentInfo}
use seqr.Crypto.Aead.{nonce_len}
use seqr.Crypto.Error.{SymmetricKey}
use seqr.Crypto.Primitives.{Primitives, SchemeLaws}

-- an identifier that names a file of its own below the directory
abbrev pub IsName : Str → Type 0
IsName id = (0 < length id) × Lacks b'.' id × Lacks b'/' id

longer : (s t : Str) → 0 < length t → s ++ t ≢ s
longer s t h e = omega (arith, length-append s t, ap length e)

-- The temporary file is another than the finished one.
pub temp_path-other :
    (data_dir id : Str)
    → IsName id
    → with_extension (text "part") (attachment_path data_dir id) ≢ attachment_path data_dir id
unfolding attachment_path
temp_path-other data_dir [] (h, _, _) e = absurd (omega arith)
temp_path-other data_dir (c ∷ id) (_, dots, slashes) e =
    let path = join_path (attachments_dir data_dir) (c ∷ id) in
    longer path (text ".part") (omega arith) (
      sym (with_extension-join_path (attachments_dir data_dir) id (text "part") c dots slashes) ∙ e)

overwrite-refuses :
    (path : Str) (bytes : Bytes) (fs : Files) → (overwrite path bytes fs).refuses ≡ fs.refuses
unfolding overwrite
overwrite-refuses path bytes fs = elim (Option-cases (lookup path fs.files)) [
  | inl missing ↦ rw (overwrite, missing) refl
  | inr (_, there) ↦ rw (overwrite, there) refl
]

-- what `new` makes
abbrev pub fresh :
    Str → AttachmentInfo → Str → Str → ℕ → SymmetricKey → SymmetricKey → ℕ → Reassembler
fresh data_dir info conversation_id sender seq key vault_key expected = record {
  info = info;
  conversation_id = conversation_id;
  sender = sender;
  seq = seq;
  key = key;
  vault_key = vault_key;
  expected = expected;
  received = [];
  temp_path = with_extension (text "part") (attachment_path data_dir info.id);
  final_path = attachment_path data_dir info.id;
}

pub new-fresh :
    (data_dir : Str) (info : AttachmentInfo) (conversation_id sender : Str) (seq : ℕ)
    (key vault_key : SymmetricKey) (expected : ℕ) (fs : Files)
    → fs.refuses ≡ none
    → let r = fresh data_dir info conversation_id sender seq key vault_key expected in
      new data_dir info conversation_id sender seq key vault_key expected fs
      ≡ (record fs { files = insert r.temp_path [] fs.files }, ok r)
unfolding new
new-fresh data_dir info conversation_id sender seq key vault_key expected fs takes =
    let path = with_extension (text "part") (attachment_path data_dir info.id) in
    rw (new, create_file-takes path fs takes) (rw (create_file-takes path fs takes) refl)

module _ ⦃p : Primitives⦄ where
  pub add_chunk_fixed :
      (index : ℕ) (ct : Bytes) (r : Reassembler) (fs : Files)
      → let (r', fs', _) = add_chunk index ct r fs in
        (r' ≡ record r { received = r'.received }) × (fs'.refuses ≡ fs.refuses)
  unfolding add_chunk
  add_chunk_fixed index ct r fs = elim (Bool-cases (among index r.received)) [
    | inl known ↦ rw (add_chunk, known) (refl, refl)
    | inr new_one ↦ elim (Result-cases (open_chunk r.key r.info.id index ct)) [
      | inr (e, bad) ↦ rw (add_chunk, new_one) (rw bad (refl, refl))
      | inl (plain, good) ↦
          rw (add_chunk, new_one) (rw good (refl, overwrite-refuses r.temp_path _ fs))
    ]
  ]

  -- that the attachment of a reassembler is the file, at rest, with nothing left beside it
  abbrev pub IsStored : Bytes → Reassembler → Files × CoreResult AttachmentInfo → Type 0
  IsStored whole r (fs', done) =
      (done ≡ ok r.info)
      × (read_rest_bytes r.vault_key r.info.id r.final_path fs' ≡ ok whole)
      × (lookup r.temp_path fs'.files ≡ none)

  module _ (nonces : ℕ → Bytes) (whole : Bytes) where
    pub arrive_fixed :
        (order : List ℕ) (r : Reassembler) (fs : Files)
        → let (r', fs') = arrive nonces whole order r fs in
          (r' ≡ record r { received = r'.received }) × (fs'.refuses ≡ fs.refuses)
    unfolding arrive
    arrive_fixed [] r fs = (refl, refl)
    arrive_fixed (index ∷ rest) r fs =
        let next = add_chunk index (sent nonces whole r index) r fs in
        let (same, takes) = add_chunk_fixed index (sent nonces whole r index) r fs in
        let (same', takes') = arrive_fixed rest next.0 next.1 in
        let end = arrive nonces whole rest next.0 next.1 in
        (
          same' ∙ ap (λ (r : Reassembler). record r { received = end.0.received }) same,
          takes' ∙ takes,
        )

    finalize-other :
        (rest : ℕ → Bytes) (r : Reassembler) (fs : Files)
        → (encrypt_file_to_rest rest r.vault_key r.info.id r.temp_path r.final_path fs).1 ≡ ok tt
        → finalize rest r fs ≡ (
          remove_file r.temp_path
              (encrypt_file_to_rest rest r.vault_key r.info.id r.temp_path r.final_path fs).0,
          ok r.info,
        )
    unfolding finalize
    finalize-other rest r fs done = rw (finalize, done) refl

    read_rest_bytes-lookup :
        (key : SymmetricKey) (id path : Str) (fs fs' : Files)
        → lookup path fs.files ≡ lookup path fs'.files
        → read_rest_bytes key id path fs ≡ read_rest_bytes key id path fs'
    unfolding read_rest_bytes decrypt_rest_to_writer
    read_rest_bytes-lookup key id path fs fs' e =
        rw (read_rest_bytes, decrypt_rest_to_writer, e) refl

    module _ (scheme : SchemeLaws p) (small : SmallTag p)
        (twelve : (i : ℕ) → length (nonces i) ≡ nonce_len) (rest : ℕ → Bytes)
        (twelve_rest : (i : ℕ) → length (rest i) ≡ nonce_len) where
      pub finalize-whole :
          (r : Reassembler) (fs : Files)
          → fs.refuses ≡ none
          → lookup r.temp_path fs.files ≡ some whole
          → r.temp_path ≢ r.final_path
          → IsStored whole r (finalize rest r fs)
      unfolding remove_file
      finalize-whole r fs takes there apart =
          let fs' =
            (encrypt_file_to_rest rest r.vault_key r.info.id r.temp_path r.final_path fs).0 in
          let (done, read, _) =
            read_rest_bytes-encrypt_file_to_rest scheme small rest twelve_rest r.vault_key r.info.id
              r.temp_path r.final_path fs whole takes there apart in
          rw (finalize-other rest r fs done) (
            refl,
            read_rest_bytes-lookup r.vault_key r.info.id r.final_path (remove_file r.temp_path fs')
                  fs'
                  (ground (
                    arith,
                    lookup-remove r.temp_path r.final_path fs'.files,
                    str_eq_iff r.temp_path r.final_path,
                    apart,
                  ))
                ∙ read,
            ground (
              arith,
              lookup-remove r.temp_path r.temp_path fs'.files,
              str_eq_iff r.temp_path r.temp_path,
            ),
          )

      -- Once every chunk of a file has come to a new reassembler, in any order and however often, the
      -- finished attachment is the file, sealed at rest under the vault's key, and the temporary file is
      -- gone. The identifier has no dot and no separator.
      pub finalize-arrive :
          (data_dir : Str) (info : AttachmentInfo) (conversation_id sender : Str) (seq : ℕ)
          (key vault_key : SymmetricKey) (expected : ℕ) (fs : Files) (order : List ℕ)
          → fs.refuses ≡ none
          → IsName info.id
          → expected < 2 ^ 32
          → length whole ≤ expected * chunk_size
          → All (λ i. i < expected) order
          → ((i : ℕ) → i < expected → among i order ≡ true)
          → let r = fresh data_dir info conversation_id sender seq key vault_key expected in
            let fs_new =
              (new data_dir info conversation_id sender seq key vault_key expected fs).0 in
            let (r', fs') = arrive nonces whole order r fs_new in
            let (fs'', done) = finalize rest r' fs' in
            (is_complete r' ≡ true) × IsStored whole r (fs'', done)
      finalize-arrive data_dir info conversation_id sender seq key vault_key expected fs order takes
            name bound enough inside all =
          let r = fresh data_dir info conversation_id sender seq key vault_key expected in
          let made =
            new-fresh data_dir info conversation_id sender seq key vault_key expected fs takes in
          let fs_new : Files = record fs { files = insert r.temp_path [] fs.files } in
          let start : IsPartial whole r fs_new = record {
            file = [];
            there = ground (
              arith,
              lookup-insert r.temp_path r.temp_path [] fs.files,
              str_eq_iff r.temp_path r.temp_path,
            );
            agrees = (omega arith, λ j _ h. absurd (ground arith));
            distinct = tt;
            below = tt;
          } in
          let end = arrive nonces whole order r fs_new in
          let (whole_file, complete) =
            arrive_complete nonces whole scheme twelve order r fs_new inside bound enough start in
          let (same, still) = arrive_fixed order r fs_new in
          let apart =
            subst (λ (q : Reassembler). q.temp_path ≢ q.final_path) (sym same)
              (temp_path-other data_dir info.id name) in
          let finished =
            finalize-whole end.0 end.1 (still ∙ takes) (whole_file (complete all)) apart in
          rw made (
            complete all,
            subst (λ (q : Reassembler). IsStored whole q (finalize rest end.0 end.1)) same finished,
          )
