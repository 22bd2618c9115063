-- ===== src/Core/Message/RoundTrip.antt =====
-- A frame is read back as it was built, and its signature covers every field.
use seqr.Prelude.{
  decimal-injective, Option-cases, List, ℕ, Bytes, Str, ◌≡◌, refl, sym, ◌∙◌, ◌<◌, inl, inr, true,
  some, arith, length, All, All-append, Lacks, decimal, ◌++◌, ◌∷◌, [], text, append_assoc,
}
use mathlib.Core.List.{append_cancel_left}
use seqr.Prelude.Result.{ok, ok_or, ok_or-eq-ok, >>=-eq-ok}
use seqr.Prelude.Separators.{number_behind, behind, behind-injective, decimal-Lacks}
use seqr.Prelude.Unicode.{is_utf8}
use seqr.Core.Error.{from_crypto}
use seqr.Core.Conversation.Keys.{decode_array-encode}
use seqr.Core.Message.{aad, build_frame, open_frame, decode_key}
use seqr.Core.Vault.{decode_array}
use seqr.Crypto.Aead.{seal, open_sealed-seal, nonce_len}
use seqr.Crypto.Error.{SymmetricKey}
use seqr.Crypto.Keys.{Identity, public}
use seqr.Crypto.Primitives.{Primitives, HexLaws, SchemeLaws, IsBytes, IsHexDigit}
use seqr.Crypto.Sign.{verify_raw, sign, verify_raw-sign}
use seqr.Protocol.{MessageFrame, signing_bytes}

-- Associated data is that of one conversation and one epoch.
pub aad-injective :
    (c c' : Str) (epoch epoch' : ℕ) → aad c epoch ≡ aad c' epoch' → (c ≡ c') × (epoch ≡ epoch')
unfolding aad
aad-injective c c' epoch epoch' h = number_behind b'|' c c' epoch epoch' (omega arith) h

module _ ⦃p : Primitives⦄ (hex : HexLaws p) (scheme : SchemeLaws p) where
  -- A frame that an identity builds, with a nonce of 12 bytes, of a text in UTF-8, opens under the
  -- same key to that text.
  pub open_frame-build_frame :
      (nonce : Bytes) (me : Identity) (conversation_id : Str) (epoch : ℕ) (key : SymmetricKey)
      (seq : ℕ) (plaintext : Str)
      → IsBytes nonce
      → length nonce ≡ nonce_len
      → IsBytes plaintext
      → is_utf8 plaintext ≡ true
      → open_frame key (build_frame nonce me conversation_id epoch key seq plaintext) ≡ ok plaintext
  unfolding open_frame build_frame public seal sign
  open_frame-build_frame nonce me conversation_id epoch key seq plaintext nb nl pb u =
      let public_key = p.ed25519_public me.signing_key in
      let sealed = seal nonce key plaintext (aad conversation_id epoch) in
      let signed =
        signing_bytes conversation_id epoch (p.hex_encode public_key) seq (p.hex_encode sealed) in
      rw
        (decode_array-encode hex scheme 32 public_key (scheme.ed25519_public-IsBytes me.signing_key)
          (scheme.length-ed25519_public me.signing_key))
        (rw
          (decode_array-encode hex scheme 64 (sign me.signing_key signed)
            (scheme.sign-IsBytes me.signing_key signed) (scheme.length-sign me.signing_key signed))
          (rw (verify_raw-sign scheme me.signing_key signed) (
            rw
              (hex.decode-encode sealed (
                All-append (λ b. b < 256) nonce _ nb
                  (scheme.encrypt-IsBytes key nonce plaintext (aad conversation_id epoch) pb)))
              (rw (open_sealed-seal scheme nonce key plaintext (aad conversation_id epoch) nl)
                (rw u refl)))))

  IsHexDigit-bar : (s : Str) → All IsHexDigit s → Lacks b'|' s
  IsHexDigit-bar [] h = tt
  IsHexDigit-bar (c ∷ s) (hc, h) = (ground arith, IsHexDigit-bar s h)

  decode_array-digits : (n : ℕ) (s : Str) (b : Bytes) → decode_array n s ≡ some b → All IsHexDigit s
  decode_array-digits n s b h = elim (Option-cases (p.hex_decode s)) [
    | inl none' ↦ ground (arith, none', h)
    | inr (b', read) ↦ hex.decode-digits s b' read
  ]

  -- hex text in the fields that `open_frame` decodes
  HexFields : MessageFrame → Type 0
  HexFields f = Lacks b'|' f.sender × Lacks b'|' f.ciphertext

  open_frame-HexFields :
      (key : SymmetricKey) (f : MessageFrame) (m : Str) → open_frame key f ≡ ok m → HexFields f
  unfolding open_frame HexFields
  open_frame-HexFields key f m h =
      let (sender, read, h1) = >>=-eq-ok (decode_key f.sender) _ h in
      let (sig, _, h2) = >>=-eq-ok (ok_or (decode_array 64 f.signature) _) _ h1 in
      let (_, _, h3) = >>=-eq-ok (from_crypto (verify_raw sender _ sig)) _ h2 in
      let (ct, read', h4) = >>=-eq-ok (ok_or (p.hex_decode f.ciphertext) _) _ h3 in
      (
        IsHexDigit-bar f.sender (decode_array-digits 32 f.sender sender (ok_or-eq-ok _ _ read)),
        IsHexDigit-bar f.ciphertext (hex.decode-digits f.ciphertext ct (ok_or-eq-ok _ _ read')),
      )

  signing_bytes-behind :
      (c : Str) (epoch : ℕ) (sender : Str) (seq : ℕ) (ct : Str)
      → signing_bytes c epoch sender seq ct
        ≡ behind b'|' (text "seqr/frame/v1|" ++ c) (decimal epoch ∷ sender ∷ decimal seq ∷ ct ∷ [])
  unfolding signing_bytes
  signing_bytes-behind c epoch sender seq ct = simp (append_assoc)

  fields_of : MessageFrame → List Str
  fields_of f = decimal f.epoch ∷ f.sender ∷ decimal f.seq ∷ f.ciphertext ∷ []

  fields_of-Lacks : (f : MessageFrame) → HexFields f → All (Lacks b'|') (fields_of f)
  unfolding fields_of HexFields
  fields_of-Lacks f (hs, hc) = (
    decimal-Lacks b'|' f.epoch (omega arith),
    (hs, (decimal-Lacks b'|' f.seq (omega arith), (hc, tt))),
  )

  -- A signature covers every field: two frames that open, even under different keys, and whose
  -- signed bytes are the same agree in conversation, epoch, sender, number and ciphertext.
  pub signing_bytes-injective :
      (key key' : SymmetricKey) (f f' : MessageFrame) (m m' : Str)
      → open_frame key f ≡ ok m
      → open_frame key' f' ≡ ok m'
      → signing_bytes f.conversation_id f.epoch f.sender f.seq f.ciphertext
        ≡ signing_bytes f'.conversation_id f'.epoch f'.sender f'.seq f'.ciphertext
      → (f.conversation_id ≡ f'.conversation_id)
        × (f.epoch ≡ f'.epoch)
        × (f.sender ≡ f'.sender)
        × (f.seq ≡ f'.seq)
        × (f.ciphertext ≡ f'.ciphertext)
  unfolding fields_of
  signing_bytes-injective key key' f f' m m' o o' e =
      let (front, same) =
        behind-injective b'|' (text "seqr/frame/v1|" ++ f.conversation_id)
          (text "seqr/frame/v1|" ++ f'.conversation_id) (fields_of f) (fields_of f') refl
          (fields_of-Lacks f (open_frame-HexFields key f m o))
          (fields_of-Lacks f' (open_frame-HexFields key' f' m' o'))
          (sym (signing_bytes-behind f.conversation_id f.epoch f.sender f.seq f.ciphertext)
            ∙ e
            ∙ signing_bytes-behind f'.conversation_id f'.epoch f'.sender f'.seq f'.ciphertext) in
      (
        append_cancel_left (text "seqr/frame/v1|") f.conversation_id f'.conversation_id front,
        decimal-injective f.epoch f'.epoch (ground (arith, same)),
        ground (arith, same),
        decimal-injective f.seq f'.seq (ground (arith, same)),
        ground (arith, same),
      )
