-- ===== src/Core/Attachment/Rest/Fuel.antt =====
-- The loops over an attachment at rest end.
use seqr.Prelude.{
  some, ℕ, zero, suc, ◌≤◌, ◌<◌, ◌≡◌, refl, ap, [], ◌++◌, Bytes, Str, length, take, drop, arith, ltb,
  ltb_false→le, false, Bool-cases, Option-cases, inl, inr, length-drop, length-take,
}
use seqr.Prelude.BigEndian.{from_be_bytes, read_exact, length-read_exact}
use seqr.Prelude.Result.{ok, err, Result-cases}
use seqr.Core.Error.{CoreResult, storage, from_crypto}
use seqr.Core.Attachment.Files.{cut_short}
use seqr.Core.Attachment.{chunk_size}
use seqr.Core.Attachment.Rest.{rest_aad, fill, next_index, seal_records, open_records, append_out}
use seqr.Crypto.Aead.{open_sealed}
use seqr.Crypto.Error.{SymmetricKey}
use seqr.Crypto.Primitives.{Primitives}

module _ ⦃p : Primitives⦄ (key : SymmetricKey) (att_id : Str) where
  -- The reader of any file, also a damaged one, ends within one turn more than the file has bytes, and always with
  -- the same output and result.
  pub open_records-ends :
      (f g index : ℕ) (input : Bytes)
      → length input < f
      → length input < g
      → (out : Bytes × CoreResult (Unit {0})) × (open_records key att_id f index input ≡ some out)
        × (open_records key att_id g index input ≡ some out)
  unfolding open_records
  open_records-ends zero g index input hf hg = absurd (omega arith)
  open_records-ends (suc f) zero index input hf hg = absurd (omega arith)
  open_records-ends (suc f) (suc g) index input hf hg = elim (Option-cases (read_exact 4 input)) [
    | inl end ↦ (([], ok tt), rw (open_records, end) refl, rw (open_records, end) refl)
    | inr ((len_buf, rest), got) ↦ elim (Option-cases (read_exact (from_be_bytes len_buf) rest)) [
      | inl cut ↦ (
        ([], err (storage cut_short)),
        rw (open_records, got) (rw cut refl),
        rw (open_records, got) (rw cut refl),
      )
      | inr ((sealed, rest'), body) ↦
          elim (Result-cases (from_crypto (open_sealed key sealed (rest_aad att_id index)))) [
            | inr (e, bad) ↦ (
              ([], err e),
              rw (open_records, got) (rw body (rw bad refl)),
              rw (open_records, got) (rw body (rw bad refl)),
            )
            | inl (plain, good) ↦
                let l1 = length-read_exact 4 input len_buf rest got in
                let l2 = length-read_exact (from_be_bytes len_buf) rest sealed rest' body in
                let (out, with_f, with_g) =
                  open_records-ends f g (next_index index) rest' (omega arith) (omega arith) in
                (
                  (plain ++ out.0, out.1),
                  rw (open_records, got) (rw body (rw good (ap (append_out plain) with_f))),
                  rw (open_records, got) (rw body (rw good (ap (append_out plain) with_g))),
                )
          ]
    ]
  ]

  -- The writer of any file ends within one turn more than the file has bytes.
  pub seal_records-fuel :
      (nonces : ℕ → Bytes) (f g index : ℕ) (input : Bytes)
      → length input < f
      → length input < g
      → seal_records nonces key att_id f index input ≡ seal_records nonces key att_id g index input
  unfolding seal_records fill
  seal_records-fuel nonces zero g index input hf hg = absurd (omega arith)
  seal_records-fuel nonces (suc f) zero index input hf hg = absurd (omega arith)
  seal_records-fuel nonces (suc f) (suc g) index input hf hg =
      elim (Bool-cases (ltb (length (take chunk_size input)) chunk_size)) [
        | inl last ↦ rw (seal_records, last) refl
        | inr full ↦
            rw
              (seal_records-fuel nonces f g (next_index index) (drop chunk_size input)
                (shorter input f full hf) (shorter input g full hg))
              refl
      ]
    where
      shorter :
          (input : Bytes) (f : ℕ)
          → ltb (length (take chunk_size input)) chunk_size ≡ false
          → length input < suc f
          → length (drop chunk_size input) < f
      shorter input f full h =
          let le : chunk_size ≤ length (take chunk_size input) = ltb_false→le _ _ full in
          omega (arith, length-take chunk_size input, length-drop chunk_size input)
