-- ===== src/Core/Conversation.antt =====
-- core/conversation.rs: the identifier and the keys of a chat of two.
pub mod Keys
use seqr.Prelude.{
  ℕ, Bytes, Str, text, decimal, ◌++◌, Option, none, some, if◌then◌else◌, ◌==◌, str_leb,
}
use seqr.Prelude.Result.{Result, ok, err, ok_or, ◌>>=◌}
use seqr.Core.Error.{CoreError, CoreResult, bad_profile, crypto, from_crypto}
use seqr.Core.Vault.{Friend, VaultData, DirectKey, direct_key, decode_array, try_into}
use seqr.Crypto.Aead.{seal, open_sealed}
use seqr.Crypto.Agreement.{derive_pairwise_bytes}
use seqr.Crypto.Error.{SymmetricKey}
use seqr.Crypto.Keys.{Identity, public}
use seqr.Crypto.Primitives.{Primitives}

abbrev pub direct_epoch : ℕ
direct_epoch = 0

unfoldable pub direct_conversation_id : Str → Str → Str
direct_conversation_id a_signing_hex b_signing_hex =
    if str_leb a_signing_hex b_signing_hex
    then a_signing_hex ++ (text "-" ++ b_signing_hex)
    else b_signing_hex ++ (text "-" ++ a_signing_hex)

unfoldable pub direct_key_aad : Str → ℕ → Bytes
direct_key_aad conversation_id epoch =
    text "seqr-directkey|" ++ (conversation_id ++ (text "|" ++ decimal epoch))

module _ ⦃p : Primitives⦄ where
  unfoldable pub pairwise_key : Identity → Friend → CoreResult SymmetricKey
  unfolding public
  pairwise_key me friend = do
    their_agreement ←
        ok_or (decode_array 32 friend.agreement_public) (bad_profile (text "bad agreement key"))
    ok (derive_pairwise_bytes me.agreement_secret their_agreement)

  -- The nonce that `seal` draws is an argument.
  unfoldable pub seal_direct_key :
      Bytes → Identity → Friend → Str → ℕ → SymmetricKey → CoreResult Str
  unfolding pairwise_key
  seal_direct_key nonce me friend conversation_id epoch key = do
    base ← pairwise_key me friend
    ok (p.hex_encode (seal nonce base key (direct_key_aad conversation_id epoch)))

  unfoldable pub open_direct_key : Identity → Friend → Str → ℕ → Str → CoreResult SymmetricKey
  unfolding pairwise_key
  open_direct_key me originator conversation_id epoch sealed_hex = do
    base ← pairwise_key me originator
    sealed ← ok_or (p.hex_decode sealed_hex) (crypto (text "bad sealed key"))
    plain ← from_crypto (open_sealed base sealed (direct_key_aad conversation_id epoch))
    ok_or (try_into 32 plain) (crypto (text "key wrong length"))

  -- the identifier of the chat with a friend
  abbrev pub conversation_with : Identity → Friend → Str
  conversation_with me friend =
      direct_conversation_id (p.hex_encode (p.ed25519_public me.signing_key)) friend.signing_public

  -- the 32 bytes of a stored key
  abbrev pub stored_key : DirectKey → CoreResult SymmetricKey
  stored_key dk = ok_or (decode_array 32 dk.key) (crypto (text "bad stored key"))

  unfoldable pub current_direct_key : VaultData → Identity → Friend → CoreResult (ℕ × SymmetricKey)
  unfolding pairwise_key
  current_direct_key data' me friend = elim (direct_key data' (conversation_with me friend)) [
    | some dk ↦ stored_key dk >>= λ key. ok (dk.epoch, key)
    | none ↦ pairwise_key me friend >>= λ key. ok (direct_epoch, key)
  ]

  unfoldable pub direct_key_for_epoch : VaultData → Identity → Friend → ℕ → CoreResult SymmetricKey
  unfolding pairwise_key
  direct_key_for_epoch data' me friend epoch =
      if epoch == direct_epoch
      then pairwise_key me friend
      else elim (direct_key data' (conversation_with me friend)) [
        | some dk ↦
            if dk.epoch == epoch then stored_key dk else err (crypto (text "unknown key epoch"))
        | none ↦ err (crypto (text "unknown key epoch"))
      ]
