-- ===== src/Core/Attachment/Rest.antt =====
-- core/attachment.rs: attachments at rest, as records that are each sealed with the vault's key behind their
-- length. The nonces that the seals draw are a function of the record's index. Writes do not fail halfway.
pub mod RoundTrip
pub mod Fuel
use seqr.Prelude.{
  ℕ, zero, suc, ◌+◌, ◌%◌, ◌^◌, ◌≤◌, ◌<◌, ◌≡◌, ◌≢◌, refl, sym, ap, ◌∙◌, Bytes, Str, text, decimal,
  true, false, List, [], ◌∷◌, ◌++◌, Option, none, some, if◌then◌else◌, ◌==◌, ltb, ◌&&◌, length,
  take, drop, arith, min, str_eq, str_eq_iff, append_assoc, append-nil, take-append-drop,
  length-take, length-drop, length-append, Bool-cases, inl, inr, take_all,
}
use seqr.Prelude.Assoc.{lookup, lookup-insert}
use seqr.Prelude.BigEndian.{
  to_be_bytes, from_be_bytes, read_exact, read_exact-append, read_exact_short,
  from_be_bytes-to_be_bytes, length-to_be_bytes,
}
use seqr.Prelude.Result.{Result, ok, err, ◌>>=◌, ◌>>◌}
use seqr.Core.Error.{CoreError, CoreResult, storage, from_crypto}
use seqr.Core.Attachment.{chunk_size}
use seqr.Core.Attachment.Files.{Files, cut_short, contents, open_file, create_file, overwrite}
use seqr.Crypto.Aead.{seal, open_sealed, open_sealed-seal, nonce_len}
use seqr.Crypto.Error.{SymmetricKey}
use seqr.Crypto.Primitives.{Primitives, SchemeLaws}

unfoldable pub rest_aad : Str → ℕ → Bytes
rest_aad att_id index = text "seqr-att-rest|" ++ (att_id ++ (text "|" ++ decimal index))

-- `fill`: what one read into a buffer of `size` bytes takes, and what is left of the file
unfoldable pub fill : ℕ → Bytes → Bytes × Bytes
fill size input = (take size input, drop size input)

abbrev next_index : ℕ → ℕ
next_index index = (index + 1) % 2 ^ 32

module _ ⦃p : Primitives⦄ where
  -- one record: the sealed length in four bytes, and the sealed bytes
  abbrev pub sealed_record : (ℕ → Bytes) → SymmetricKey → Str → ℕ → Bytes → Bytes
  sealed_record nonces key att_id index plain =
      let sealed = seal (nonces index) key plain (rest_aad att_id index) in
      to_be_bytes (length sealed % 2 ^ 32) ++ sealed

  -- the loop of `encrypt_file_to_rest`, on fuel: what it writes of the rest of the input
  unfoldable pub seal_records : (ℕ → Bytes) → SymmetricKey → Str → ℕ → ℕ → Bytes → Bytes
  unfolding fill
  seal_records nonces key att_id zero index input = []
  seal_records nonces key att_id (suc fuel) index input =
      let (plain, input') = fill chunk_size input in
      let n = length plain in
      let rest = seal_records nonces key att_id fuel (next_index index) input' in
      if (n == 0) && ltb 0 index
      then []
      else sealed_record nonces key att_id index plain ++ (if ltb n chunk_size then [] else rest)

  -- Each turn but the last takes a byte at least.
  unfoldable pub encrypt_file_to_rest :
      (ℕ → Bytes) → SymmetricKey → Str → Str → Str → Files → Files × CoreResult (Unit {0})
  encrypt_file_to_rest nonces vault_key att_id src dest fs = elim (open_file src fs) [
    | err e ↦ (fs, err e)
    | ok _ ↦
        let (fs', created) = create_file dest fs in
        elim created [
          | err e ↦ (fs', err e)
          | ok _ ↦
              let input = contents src fs' in
              (
                overwrite dest (seal_records nonces vault_key att_id (suc (length input)) 0 input)
                    fs',
                ok tt,
              )
        ]
  ]

  abbrev append_out :
      Bytes → Option (Bytes × CoreResult (Unit {0})) → Option (Bytes × CoreResult (Unit {0}))
  append_out plain none = none
  append_out plain (some (out, r)) = some (plain ++ out, r)

  -- the loop of `decrypt_rest_to_writer`, on fuel: what it writes, and how it ends; `none` if it has not ended when the
  -- fuel is used up
  unfoldable pub open_records :
      SymmetricKey → Str → ℕ → ℕ → Bytes → Option (Bytes × CoreResult (Unit {0}))
  open_records key att_id zero index input = none
  open_records key att_id (suc fuel) index input = elim (read_exact 4 input) [
    | none ↦ some ([], ok tt)
    | some (len_buf, rest) ↦ elim (read_exact (from_be_bytes len_buf) rest) [
      | none ↦ some ([], err (storage cut_short))
      | some (sealed, rest') ↦ elim (from_crypto (open_sealed key sealed (rest_aad att_id index))) [
        | err e ↦ some ([], err e)
        | ok plain ↦ append_out plain (open_records key att_id fuel (next_index index) rest')
      ]
    ]
  ]

  -- a loop that has ended; one that has not has no result in the code either
  abbrev ended : Option (Bytes × CoreResult (Unit {0})) → Bytes × CoreResult (Unit {0})
  ended none = ([], err (storage (text "no end")))
  ended (some out) = out

  -- Each turn but the last takes a length of four bytes.
  unfoldable pub decrypt_rest_to_writer :
      SymmetricKey → Str → Str → Files → Bytes × CoreResult (Unit {0})
  decrypt_rest_to_writer vault_key att_id src fs = elim (open_file src fs) [
    | err e ↦ ([], err e)
    | ok input ↦ ended (open_records vault_key att_id (suc (length input)) 0 input)
  ]

  unfoldable pub read_rest_bytes : SymmetricKey → Str → Str → Files → CoreResult Bytes
  unfolding decrypt_rest_to_writer
  read_rest_bytes vault_key att_id src fs =
      let (out, r) = decrypt_rest_to_writer vault_key att_id src fs in (do r; ok out)
