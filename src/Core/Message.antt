-- ===== src/Core/Message.antt =====
-- core/message.rs: a text as a signed and sealed frame, and back.
pub mod RoundTrip
use seqr.Prelude.{ℕ, Bytes, Str, text, decimal, ◌++◌}
use seqr.Prelude.Result.{Result, ok, ok_or, ◌>>=◌, ◌>>◌}
use seqr.Prelude.Unicode.{from_utf8}
use seqr.Core.Error.{CoreError, CoreResult, bad_profile, crypto, from_crypto}
use seqr.Core.Vault.{decode_array}
use seqr.Crypto.Aead.{seal, open_sealed}
use seqr.Crypto.Error.{SymmetricKey}
use seqr.Crypto.Keys.{Identity, public}
use seqr.Crypto.Primitives.{Primitives}
use seqr.Crypto.Sign.{sign, verify_raw}
use seqr.Protocol.{MessageFrame, signing_bytes}

unfoldable pub aad : Str → ℕ → Bytes
aad conversation_id epoch = conversation_id ++ (text "|" ++ decimal epoch)

module _ ⦃p : Primitives⦄ where
  -- The nonce that `seal` draws is an argument.
  unfoldable pub build_frame : Bytes → Identity → Str → ℕ → SymmetricKey → ℕ → Str → MessageFrame
  unfolding public
  build_frame nonce me conversation_id epoch key seq plaintext =
      let sender = p.hex_encode (public me).signing_public in
      let ciphertext = seal nonce key plaintext (aad conversation_id epoch) in
      let ciphertext_hex = p.hex_encode ciphertext in
      let signed = signing_bytes conversation_id epoch sender seq ciphertext_hex in
      record {
        conversation_id = conversation_id;
        epoch = epoch;
        sender = sender;
        seq = seq;
        signature = p.hex_encode (sign me.signing_key signed);
        ciphertext = ciphertext_hex;
      }

  -- `decode32` of message.rs
  abbrev pub decode_key : Str → CoreResult Bytes
  decode_key hex_str = ok_or (decode_array 32 hex_str) (bad_profile (text "bad key"))

  unfoldable pub open_frame : SymmetricKey → MessageFrame → CoreResult Str
  open_frame key frame = do
    sender ← decode_key frame.sender
    sig ← ok_or (decode_array 64 frame.signature) (bad_profile (text "bad signature"))
    let signed =
        signing_bytes frame.conversation_id frame.epoch frame.sender frame.seq frame.ciphertext
    from_crypto (verify_raw sender signed sig)
    ciphertext ← ok_or (p.hex_decode frame.ciphertext) (crypto (text "bad ciphertext hex"))
    plain ← from_crypto (open_sealed key ciphertext (aad frame.conversation_id frame.epoch))
    ok_or (from_utf8 plain) (crypto (text "message not valid UTF-8"))
