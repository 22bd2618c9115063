-- ===== src/Core/Attachment.antt =====
-- core/attachment.rs: the chunks of an attachment, as they travel. Its files are in the children.
pub mod Files
pub mod Rest
pub mod Reassembly
use seqr.Prelude.{
  ℕ, ◌+◌, ◌-◌, ◌*◌, ◌/◌, ◌%◌, ◌^◌, ◌≤◌, ◌<◌, ◌≡◌, Bytes, Str, text, decimal, ◌++◌, [], ◌∷◌,
  if◌then◌else◌, ◌==◌, leb, ◌&&◌, ◌||◌, take, length, str_eq, map, split, arith,
}
use mathlib.Core.List.{reverse}
use seqr.Prelude.Result.{ok}
use seqr.Core.Error.{CoreResult, from_crypto}
use seqr.Crypto.Aead.{seal, open_sealed, open_sealed-seal, nonce_len}
use seqr.Crypto.Error.{SymmetricKey}
use seqr.Crypto.Keys.{generate_group_key}
use seqr.Crypto.Primitives.{Primitives, SchemeLaws}

abbrev pub chunk_size : ℕ
chunk_size = 512 * 1024

abbrev pub max_attachment : ℕ
max_attachment = 1024 * 1024 * 1024

unfoldable pub chunk_aad : Str → ℕ → Bytes
chunk_aad att_id index = text "seqr-att|" ++ (att_id ++ (text "|" ++ decimal index))

-- the sum is a `u64`, the result a `u32`
unfoldable pub chunk_count : ℕ → ℕ
chunk_count size = if size == 0 then 1 else ((size + chunk_size - 1) % 2 ^ 64 / chunk_size) % 2 ^ 32

abbrev lower : ℕ → ℕ
lower c = if leb b'A' c && leb c b'Z' then c + 32 else c

-- `filename.rsplit('.').next()`, in lower case
abbrev extension : Str → Str
extension filename = elim (reverse (split b'.' filename)) [ [] ↦ [] | ext ∷ front ↦ map lower ext ]

unfoldable pub guess_mime : Str → Str
guess_mime filename =
    let ext = extension filename in
    if str_eq ext (text "png")
    then text "image/png"
    else if str_eq ext (text "jpg") || str_eq ext (text "jpeg")
    then text "image/jpeg"
    else if str_eq ext (text "gif")
    then text "image/gif"
    else if str_eq ext (text "webp")
    then text "image/webp"
    else if str_eq ext (text "svg")
    then text "image/svg+xml"
    else if str_eq ext (text "mp4")
    then text "video/mp4"
    else if str_eq ext (text "webm")
    then text "video/webm"
    else if str_eq ext (text "mov")
    then text "video/quicktime"
    else if str_eq ext (text "mp3")
    then text "audio/mpeg"
    else if str_eq ext (text "wav")
    then text "audio/wav"
    else if str_eq ext (text "pdf")
    then text "application/pdf"
    else if str_eq ext (text "txt")
    then text "text/plain"
    else if str_eq ext (text "zip")
    then text "application/zip"
    else text "application/octet-stream"

module _ ⦃p : Primitives⦄ where
  -- The nonce that `seal` draws is an argument.
  unfoldable pub seal_chunk : Bytes → SymmetricKey → Str → ℕ → Bytes → Bytes
  seal_chunk nonce key att_id index plaintext = seal nonce key plaintext (chunk_aad att_id index)

  unfoldable pub open_chunk : SymmetricKey → Str → ℕ → Bytes → CoreResult Bytes
  open_chunk key att_id index ciphertext =
      from_crypto (open_sealed key ciphertext (chunk_aad att_id index))

  -- by the random bytes of the key that it is cut from
  unfoldable pub new_attachment_id : Bytes → Str
  unfolding generate_group_key
  new_attachment_id random = p.hex_encode (take 16 (generate_group_key random))

  -- A sealed chunk opens under its attachment and index.
  pub open_chunk-seal_chunk :
      SchemeLaws p
      → (nonce : Bytes) (key : SymmetricKey) (att_id : Str) (index : ℕ) (plaintext : Bytes)
      → length nonce ≡ nonce_len
      → open_chunk key att_id index (seal_chunk nonce key att_id index plaintext) ≡ ok plaintext
  unfolding open_chunk seal_chunk
  open_chunk-seal_chunk scheme nonce key att_id index plaintext h =
      rw (open_sealed-seal scheme nonce key plaintext (chunk_aad att_id index) h)

-- The chunks of an attachment that is neither empty nor above the cap hold it, and one fewer would
-- not.
pub chunk_count-fits :
    (size : ℕ)
    → size ≤ max_attachment
    → 0 < size
    → (size ≤ chunk_count size * chunk_size) × (chunk_count size * chunk_size < size + chunk_size)
unfolding chunk_count
chunk_count-fits size small some_bytes = ground arith
