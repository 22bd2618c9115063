-- ===== src/Core/Group.antt =====
-- core/group.rs: the key of a group, sealed for one member at a time.
use seqr.Prelude.{ℕ, Bytes, Str, text, decimal, ◌++◌, take}
use seqr.Prelude.Result.{ok, ok_or, ◌>>=◌}
use seqr.Core.Conversation.{pairwise_key}
use seqr.Core.Error.{CoreResult, crypto, from_crypto}
use seqr.Core.Vault.{Friend, try_into}
use seqr.Crypto.Aead.{seal, open_sealed}
use seqr.Crypto.Error.{SymmetricKey}
use seqr.Crypto.Keys.{Identity, generate_group_key}
use seqr.Crypto.Primitives.{Primitives}

unfoldable pub key_aad : Str → ℕ → Bytes
key_aad group_id epoch = text "seqr-groupkey|" ++ (group_id ++ (text "|" ++ decimal epoch))

module _ ⦃p : Primitives⦄ where
  -- The nonce that `seal` draws is an argument.
  unfoldable pub seal_group_key :
      Bytes → Identity → Friend → Str → ℕ → SymmetricKey → CoreResult Str
  seal_group_key nonce me recipient group_id epoch key = do
    pair ← pairwise_key me recipient
    let sealed = seal nonce pair key (key_aad group_id epoch)
    ok (p.hex_encode sealed)

  unfoldable pub open_group_key : Identity → Friend → Str → ℕ → Str → CoreResult SymmetricKey
  open_group_key me originator group_id epoch sealed_hex = do
    pair ← pairwise_key me originator
    sealed ← ok_or (p.hex_decode sealed_hex) (crypto (text "bad sealed key"))
    plain ← from_crypto (open_sealed pair sealed (key_aad group_id epoch))
    ok_or (try_into 32 plain) (crypto (text "group key wrong length"))

  -- by the random bytes of the key that it is cut from
  unfoldable pub new_group_id : Bytes → Str
  unfolding generate_group_key
  new_group_id random = p.hex_encode (take 16 (generate_group_key random))
