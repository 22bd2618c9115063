-- ===== src/Core/Attachment/Rest/RoundTrip.antt =====
-- What was encrypted at rest is read back.
use seqr.Prelude.{
  ℕ, zero, suc, ◌+◌, ◌%◌, ◌^◌, ◌≤◌, ◌<◌, ◌≡◌, ◌≢◌, refl, sym, ap, ◌∙◌, subst, Bytes, Str, true,
  false, [], ◌∷◌, ◌++◌, none, some, ◌==◌, ltb, ◌&&◌, length, take, drop, arith, str_eq_iff,
  append_assoc, append-nil, take-append-drop, length-take, length-drop, length-append, Bool-cases,
  inl, inr, take_all, ◌⊎◌, ltb→lt,
}
use seqr.Prelude.Assoc.{insert, lookup, lookup-insert}
use seqr.Prelude.BigEndian.{
  to_be_bytes, read_exact-append, read_exact_short, from_be_bytes-to_be_bytes, length-to_be_bytes,
}
use seqr.Prelude.Result.{ok}
use seqr.Core.Attachment.{chunk_size}
use seqr.Core.Attachment.Files.{Files, contents, create_file-takes, overwrite}
use seqr.Core.Attachment.Rest.{
  rest_aad, fill, next_index, sealed_record, seal_records, open_records, append_out,
  encrypt_file_to_rest, decrypt_rest_to_writer, read_rest_bytes,
}
use seqr.Crypto.Aead.{seal, open_sealed-seal, nonce_len}
use seqr.Crypto.Error.{SymmetricKey}
use seqr.Crypto.Primitives.{Primitives, SchemeLaws}

-- ChaCha20-Poly1305 adds a tag of 16 bytes at most.
abbrev pub SmallTag : Primitives → Type 0
SmallTag p = (k n m a : Bytes) → length (p.chacha_encrypt k n m a) ≤ length m + 16

at_end : (n i : ℕ) → ((n == 0) && ltb 0 i) ≡ true → n ≡ 0
at_end n i h = ground arith

not_short : (n m : ℕ) → n ≤ m → ltb n m ≡ false → n ≡ m
not_short n m le h = ground arith

module _ ⦃p : Primitives⦄ (scheme : SchemeLaws p) (small : SmallTag p) (nonces : ℕ → Bytes)
    (twelve : (i : ℕ) → length (nonces i) ≡ nonce_len) (key : SymmetricKey) (att_id : Str) where
  length-seal :
      (index : ℕ) (plain : Bytes)
      → length plain ≤ chunk_size
      → length (seal (nonces index) key plain (rest_aad att_id index)) < 2 ^ 32
  unfolding seal
  length-seal index plain h =
      let ct = p.chacha_encrypt key (nonces index) plain (rest_aad att_id index) in
      omega (
        arith,
        length-append (nonces index) ct,
        twelve index,
        small key (nonces index) plain (rest_aad att_id index),
      )

  open_records-sealed :
      (fuel index : ℕ) (plain rest : Bytes)
      → length plain ≤ chunk_size
      → open_records key att_id
          (suc fuel)
          index
          (sealed_record nonces key att_id index plain ++ rest)
        ≡ append_out plain (open_records key att_id fuel (next_index index) rest)
  unfolding open_records
  open_records-sealed fuel index plain rest h =
      let sealed = seal (nonces index) key plain (rest_aad att_id index) in
      let fits : length sealed < 2 ^ 32 = length-seal index plain h in
      let whole : length sealed % 2 ^ 32 ≡ length sealed = omega arith in
      let head = to_be_bytes (length sealed) in
      rw whole (
        rw (append_assoc head sealed rest) (
          rw
            (
              open_records,
              read_exact-append 4 head (sealed ++ rest) (length-to_be_bytes (length sealed)),
            )
            (rw (from_be_bytes-to_be_bytes (length sealed) fits) (
              rw (read_exact-append (length sealed) sealed rest refl) (
                rw
                  (open_sealed-seal scheme (nonces index) key plain (rest_aad att_id index)
                    (twelve index))
                  refl)))))

  open_records_end :
      (fuel index : ℕ) → 0 < fuel → open_records key att_id fuel index [] ≡ some ([], ok tt)
  unfolding open_records
  open_records_end zero index h = absurd (omega arith)
  open_records_end (suc fuel) index h = rw (open_records, read_exact_short 4 [] (omega arith)) refl

  length-sealed_record :
      (index : ℕ) (plain rest : Bytes)
      → 4 + length rest ≤ length (sealed_record nonces key att_id index plain ++ rest)
  length-sealed_record index plain rest =
      let sealed = seal (nonces index) key plain (rest_aad att_id index) in
      let head = to_be_bytes (length sealed % 2 ^ 32) in
      omega (
        arith,
        length-append (head ++ sealed) rest,
        length-append head sealed,
        length-to_be_bytes (length sealed % 2 ^ 32),
      )

  open_records-record :
      (g index : ℕ) (plain rest input : Bytes)
      → length plain ≤ chunk_size
      → length (sealed_record nonces key att_id index plain ++ rest) < g
      → ((g' : ℕ)
          → length rest < g'
          → open_records key att_id g' (next_index index) rest ≡ some (input, ok tt))
      → open_records key att_id g index (sealed_record nonces key att_id index plain ++ rest)
        ≡ some (plain ++ input, ok tt)
  open_records-record zero index plain rest input h enough next =
      absurd (omega (arith, length-sealed_record index plain rest))
  open_records-record (suc g) index plain rest input h enough next =
      open_records-sealed g index plain rest h
      ∙ ap (append_out plain) (next g (omega (arith, length-sealed_record index plain rest)))

  -- One turn of the writer: at the end of a later record it is done, a short read is the last record, and
  -- behind a full one there are more.
  seal_records-cases :
      (f index : ℕ) (input : Bytes)
      → let written = seal_records nonces key att_id (suc f) index input in
        let first = sealed_record nonces key att_id index (take chunk_size input) in
        let rest = seal_records nonces key att_id f (next_index index) (drop chunk_size input) in
        ((written ≡ []) × (length (take chunk_size input) ≡ 0))
        ⊎ (((written ≡ first ++ []) × (length (take chunk_size input) < chunk_size))
            ⊎ ((written ≡ first ++ rest) × (length (take chunk_size input) ≡ chunk_size)))
  unfolding seal_records fill
  seal_records-cases f index input =
      let plain = take chunk_size input in
      let small_plain : length plain ≤ chunk_size = omega (arith, length-take chunk_size input) in
      elim (Bool-cases ((length plain == 0) && ltb 0 index)) [
        | inl done ↦ inl (rw (seal_records, done) refl, at_end (length plain) index done)
        | inr more ↦ elim (Bool-cases (ltb (length plain) chunk_size)) [
          | inl last ↦
              inr (
                inl (rw (seal_records, more) (rw last refl), ltb→lt (length plain) chunk_size last))
          | inr full ↦ inr (
              inr (
                rw (seal_records, more) (rw full refl),
                not_short (length plain) chunk_size small_plain full,
              ))
        ]
      ]

  short_take :
      (input : Bytes) → length (take chunk_size input) < chunk_size → take chunk_size input ≡ input
  short_take input h = take_all chunk_size input (omega (arith, length-take chunk_size input))

  -- The records of an input give it back, with any fuel for the reader that their length allows.
  open_records-seal_records :
      (f g index : ℕ) (input : Bytes)
      → length input < f
      → length (seal_records nonces key att_id f index input) < g
      → open_records key att_id g index (seal_records nonces key att_id f index input)
        ≡ some (input, ok tt)
  open_records-seal_records zero g index input h enough = absurd (omega arith)
  open_records-seal_records (suc f) g index input h enough =
      let plain = take chunk_size input in
      let input' = drop chunk_size input in
      let small_plain : length plain ≤ chunk_size = omega (arith, length-take chunk_size input) in
      elim (seal_records-cases f index input) [
        | inl (done, none_left) ↦ rw done (
            open_records_end g index (omega arith)
            ∙ ap (λ (b : Bytes). some (b, ok tt)) (sym (empty input none_left)))
        | inr (inl (last, short)) ↦ rw last (
            open_records-record g index plain [] [] small_plain
              (subst (λ (r : Bytes). length r < g) last enough)
              (λ g' e. open_records_end g' (next_index index) e)
            ∙ ap (λ (b : Bytes). some (b, ok tt)) (append-nil plain ∙ short_take input short))
        | inr (inr (more, full)) ↦ rw more (
            open_records-record g index plain
              (seal_records nonces key att_id f (next_index index) input') input' small_plain
              (subst (λ (r : Bytes). length r < g) more enough)
              (λ g' e.
                open_records-seal_records f g' (next_index index) input'
                  (omega (arith, length-take chunk_size input, length-drop chunk_size input)) e)
            ∙ ap (λ (b : Bytes). some (b, ok tt)) (take-append-drop chunk_size input))
      ]
    where
      empty : (input : Bytes) → length (take chunk_size input) ≡ 0 → input ≡ []
      empty [] e = refl
      empty (b ∷ input) e = absurd (omega (arith, length-take chunk_size (b ∷ input)))

  -- the records of a whole file
  abbrev records : Bytes → Bytes
  records input = seal_records nonces key att_id (suc (length input)) 0 input

  encrypt_file_to_rest-other :
      (src dest : Str) (fs : Files) (input : Bytes)
      → fs.refuses ≡ none
      → lookup src fs.files ≡ some input
      → src ≢ dest
      → encrypt_file_to_rest nonces key att_id src dest fs
        ≡ (record fs { files = insert dest (records input) (insert dest [] fs.files) }, ok tt)
  unfolding encrypt_file_to_rest overwrite
  encrypt_file_to_rest-other src dest fs input takes there other =
      let emptied : lookup dest (insert dest [] fs.files) ≡ some [] =
        ground (arith, lookup-insert dest dest [] fs.files, str_eq_iff dest dest) in
      let kept : lookup src (insert dest [] fs.files) ≡ some input =
        ground (arith, lookup-insert dest src [] fs.files, str_eq_iff dest src, there, other) in
      rw (encrypt_file_to_rest, there)
        (rw (create_file-takes dest fs takes)
          (rw (create_file-takes dest fs takes) (rw emptied (rw (contents, kept) refl))))

  -- What was encrypted at rest into another file is read back whole under the vault's key and the
  -- attachment's identifier, and every other file is as it was.
  pub read_rest_bytes-encrypt_file_to_rest :
      (src dest : Str) (fs : Files) (input : Bytes)
      → fs.refuses ≡ none
      → lookup src fs.files ≡ some input
      → src ≢ dest
      → let (fs', done) = encrypt_file_to_rest nonces key att_id src dest fs in
        (done ≡ ok tt)
        × (read_rest_bytes key att_id dest fs' ≡ ok input)
        × ((path : Str) → path ≢ dest → lookup path fs'.files ≡ lookup path fs.files)
  unfolding read_rest_bytes decrypt_rest_to_writer
  read_rest_bytes-encrypt_file_to_rest src dest fs input takes there other =
      let before = insert dest [] fs.files in
      let written : lookup dest (insert dest (records input) before) ≡ some (records input) =
        ground (arith, lookup-insert dest dest (records input) before, str_eq_iff dest dest) in
      rw (encrypt_file_to_rest-other src dest fs input takes there other) (
        refl,
        rw (read_rest_bytes, decrypt_rest_to_writer, written)
            (rw
              (open_records-seal_records (suc (length input)) (suc (length (records input))) 0 input
                (omega arith) (omega arith))
              refl),
        λ path elsewhere. ground (
          arith,
          lookup-insert dest path (records input) before,
          lookup-insert dest path [] fs.files,
          str_eq_iff dest path,
          elsewhere,
        ),
      )
