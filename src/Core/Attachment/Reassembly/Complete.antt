-- ===== src/Core/Attachment/Reassembly/Complete.antt =====
-- A reassembler that chunks of one file arrive at, up to the finished file.
use seqr.Prelude.{
  ◌⊎◌, ==_iff, ℕ, ◌*◌, ◌%◌, ◌^◌, ◌≤◌, ◌<◌, ◌≡◌, refl, sym, ap, ◌∙◌, subst, Bytes, Bool, true, false,
  List, [], ◌∷◌, some, ◌==◌, length, All, arith, Bool-cases, inl, inr, str_eq_iff,
}
use seqr.Prelude.Assoc.{insert, lookup, lookup-insert}
use seqr.Prelude.Positions.{
  le-length_of_among, among, IsDistinct, among_all, length-le_of_IsDistinct,
}
use seqr.Prelude.Result.{ok}
use seqr.Core.Error.{CoreResult}
use seqr.Core.Attachment.{chunk_size, seal_chunk, open_chunk-seal_chunk}
use seqr.Core.Attachment.Files.{write_at, Files, contents, overwrite}
use seqr.Core.Attachment.Reassembly.{Reassembler, add_chunk, is_complete}
use seqr.Core.Attachment.Reassembly.AnyOrder.{part, Agrees, Agrees-write_at, Agrees-all}
use seqr.Crypto.Aead.{nonce_len}
use seqr.Crypto.Primitives.{Primitives, SchemeLaws}

module _ (whole : Bytes) where
  -- The temporary file holds the chunks that came, each of which came once into the count.
  pub record IsPartial (r : Reassembler) (fs : Files) : Type 0 where
    pub file : Bytes
    pub there : lookup r.temp_path fs.files ≡ some file
    pub agrees : Agrees whole r.received file
    pub distinct : IsDistinct r.received
    pub below : All (λ i. i < r.expected) r.received

  -- With as many chunks as were expected, the temporary file is the whole one.
  pub IsPartial-whole :
      (r : Reassembler) (fs : Files)
      → r.expected < 2 ^ 32
      → length whole ≤ r.expected * chunk_size
      → IsPartial r fs
      → is_complete r ≡ true
      → lookup r.temp_path fs.files ≡ some whole
  IsPartial-whole r fs small enough now complete =
      let bound = length-le_of_IsDistinct r.expected r.received now.distinct now.below in
      let full : length r.received ≡ r.expected = ground arith in
      now.there
      ∙ ap some (
          Agrees-all whole now.file r.received r.expected now.agrees enough
            (among_all r.expected r.received now.distinct now.below full))

module _ ⦃p : Primitives⦄ (nonces : ℕ → Bytes) (whole : Bytes) where
  -- the sealed chunk of the file that a sender makes, by index
  abbrev pub sent : Reassembler → ℕ → Bytes
  sent r index = seal_chunk (nonces index) r.key r.info.id index (part whole index)

  -- chunks of the file that arrive one after the other, by index
  unfoldable pub arrive : List ℕ → Reassembler → Files → Reassembler × Files
  arrive [] r fs = (r, fs)
  arrive (index ∷ rest) r fs =
      let (r', fs', _) = add_chunk index (sent r index) r fs in arrive rest r' fs'

  add_chunk-known :
      (index : ℕ) (ct : Bytes) (r : Reassembler) (fs : Files)
      → among index r.received ≡ true
      → add_chunk index ct r fs ≡ (r, fs, ok (is_complete r))
  unfolding add_chunk
  add_chunk-known index ct r fs h = rw (add_chunk, h) refl

  module _ (scheme : SchemeLaws p) (twelve : (i : ℕ) → length (nonces i) ≡ nonce_len) where
    took : ℕ → Reassembler → Reassembler
    took index r = record r { received = index ∷ r.received }

    add_chunk-new :
        (index : ℕ) (r : Reassembler) (fs : Files) (file : Bytes)
        → among index r.received ≡ false
        → lookup r.temp_path fs.files ≡ some file
        → add_chunk index (sent r index) r fs ≡ (
          took index r,
          record fs {
            files =
                insert r.temp_path (write_at (index * chunk_size) (part whole index) file) fs.files;
          },
          ok (is_complete (took index r)),
        )
    unfolding add_chunk took overwrite
    add_chunk-new index r fs file new there =
        rw (add_chunk, new)
          (rw
            (open_chunk-seal_chunk scheme (nonces index) r.key r.info.id index (part whole index)
              (twelve index))
            (rw (contents, there) refl))

    -- what a chunk of the file leaves
    pub record Step (r : Reassembler) (index : ℕ) (out : Reassembler × Files × CoreResult Bool)
        : Type 0 where
      pub partial : IsPartial whole out.0 out.1
      pub counts : out.2 ≡ ok (is_complete out.0)
      pub expects : out.0.expected ≡ r.expected
      pub has :
          (i : ℕ)
          → ((index == i) ≡ true) ⊎ (among i r.received ≡ true)
          → among i out.0.received ≡ true

    pub add_chunk-IsPartial :
        (index : ℕ) (r : Reassembler) (fs : Files)
        → index < r.expected
        → IsPartial whole r fs
        → Step r index (add_chunk index (sent r index) r fs)
    unfolding took
    add_chunk-IsPartial index r fs inside now = elim (Bool-cases (among index r.received)) [
      | inl known ↦ rw (add_chunk-known index (sent r index) r fs known) (record {
        partial = now;
        counts = refl;
        expects = refl;
        has = λ i h. elim h [
          | inr old ↦ old
          | inl same ↦ subst (λ i. among i r.received ≡ true) ((==_iff index i).0 same) known
        ];
      })
      | inr new ↦
          let file' = write_at (index * chunk_size) (part whole index) now.file in
          rw (add_chunk-new index r fs now.file new now.there) (record {
            partial = record {
              file = file';
              there = ground (
                arith,
                lookup-insert r.temp_path r.temp_path file' fs.files,
                str_eq_iff r.temp_path r.temp_path,
              );
              agrees = Agrees-write_at whole now.file index r.received now.agrees;
              distinct = (new, now.distinct);
              below = (inside, now.below);
            };
            counts = refl;
            expects = refl;
            has = λ i h. ground (arith, h);
          })
    ]

    pub arrive-IsPartial :
        (order : List ℕ) (r : Reassembler) (fs : Files)
        → All (λ i. i < r.expected) order
        → IsPartial whole r fs
        → let (r', fs') = arrive order r fs in
          IsPartial whole r' fs'
          × (r'.expected ≡ r.expected)
          × ((i : ℕ)
              → (among i order ≡ true) ⊎ (among i r.received ≡ true)
              → among i r'.received ≡ true)
    unfolding arrive
    arrive-IsPartial [] r fs h now =
        (now, refl, λ i e. elim e [ inl bad ↦ absurd (ground arith) | inr old ↦ old ])
    arrive-IsPartial (index ∷ rest) r fs (inside, h) now =
        let step = add_chunk-IsPartial index r fs inside now in
        let next = add_chunk index (sent r index) r fs in
        let (done, same, came) =
          arrive-IsPartial rest next.0 next.1
            (subst (λ n. All (λ i. i < n) rest) (sym step.expects) h) step.partial in
        (
          done,
          same ∙ step.expects,
          λ i e. came i (either i index rest next.0.received (λ e'. step.has i e') e),
        )
      where
        either :
            (i index : ℕ) (rest received' : List ℕ)
            → (((index == i) ≡ true) ⊎ (among i r.received ≡ true) → among i received' ≡ true)
            → (among i (index ∷ rest) ≡ true) ⊎ (among i r.received ≡ true)
            → (among i rest ≡ true) ⊎ (among i received' ≡ true)
        either i index rest received' f (inr old) = inr (f (inr old))
        either i index rest received' f (inl e) = elim (Bool-cases (index == i)) [
          | inl same ↦ inr (f (inl same))
          | inr other ↦ inl (ground (arith, e, other))
        ]

    -- In whatever order the chunks of a file come, and however often: as soon as the count is what was
    -- expected the temporary file is the file, and the count is that once each index has come.
    pub arrive_complete :
        (order : List ℕ) (r : Reassembler) (fs : Files)
        → All (λ i. i < r.expected) order
        → r.expected < 2 ^ 32
        → length whole ≤ r.expected * chunk_size
        → IsPartial whole r fs
        → let (r', fs') = arrive order r fs in
          (is_complete r' ≡ true → lookup r'.temp_path fs'.files ≡ some whole)
          × (((i : ℕ) → i < r.expected → among i order ≡ true) → is_complete r' ≡ true)
    arrive_complete order r fs h small enough now =
        let (r', fs') = arrive order r fs in
        let (done, same, came) = arrive-IsPartial order r fs h now in
        let bound = length-le_of_IsDistinct r'.expected r'.received done.distinct done.below in
        (
          IsPartial-whole whole r' fs' (omega (arith, same))
              (subst (λ n. length whole ≤ n * chunk_size) (sym same) enough) done,
          λ all.
              let least =
                le-length_of_among r.expected r'.received (λ i below. came i (inl (all i below))) in
              (==_iff (length r'.received % 2 ^ 32) r'.expected).1 (omega arith),
        )
