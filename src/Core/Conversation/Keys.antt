-- ===== src/Core/Conversation/Keys.antt =====
-- The keys of a chat of two and of a group: both sides have one identifier and one key, a sealed key
-- opens on the other side, and an epoch names one key.
use seqr.Prelude.{
  text, ℕ, Bytes, Str, ◌≡◌, ◌≢◌, refl, sym, ap, ◌∙◌, ◌<◌, some, arith, length, All-append, ◌==◌,
  str_leb-total, str_leb_antisymm, str_eq_refl, if◌then◌else◌,
}
use seqr.Prelude.Result.{ok, err, ◌>>=◌}
use seqr.Core.Conversation.{
  direct_conversation_id, pairwise_key, seal_direct_key, open_direct_key, direct_key_aad,
  current_direct_key, direct_key_for_epoch, conversation_with, direct_epoch,
}
use seqr.Core.Error.{crypto}
use seqr.Core.Group.{seal_group_key, open_group_key, key_aad}
use seqr.Core.Vault.{Friend, VaultData, decode_array, direct_key, set_direct_key}
use seqr.Core.Vault.Messages.{direct_key-set_direct_key}
use seqr.Crypto.Aead.{seal, open_sealed-seal, nonce_len}
use seqr.Crypto.Agreement.{derive_pairwise_bytes, derive_pairwise_agrees}
use seqr.Crypto.Error.{SymmetricKey}
use seqr.Crypto.Keys.{Identity, public}
use seqr.Crypto.Primitives.{Primitives, HexLaws, SchemeLaws, IsBytes}

-- Two parties compute the same identifier, each with its own key first.
pub direct_conversation_id_comm :
    (a b : Str) → direct_conversation_id a b ≡ direct_conversation_id b a
unfolding direct_conversation_id
direct_conversation_id_comm a b =
    ground (arith, str_leb-total a b, str_leb_antisymm a b, str_leb-total b a)

module _ ⦃p : Primitives⦄ where
  -- a roster entry with the public agreement key of an identity
  abbrev pub IsCardOf : Identity → Friend → Type 0
  IsCardOf me card = card.agreement_public ≡ p.hex_encode (p.x25519_public me.agreement_secret)

  -- the nonce and the key of a sealed key
  pub record KeyDraws (nonce key : Bytes) : Type 0 where
    pub nonce_bytes : IsBytes nonce
    pub nonce_size : length nonce ≡ nonce_len
    pub key_bytes : IsBytes key
    pub key_size : length key ≡ 32

  module _ (hex : HexLaws p) (scheme : SchemeLaws p) where
    pub decode_array-encode :
        (n : ℕ) (b : Bytes) → IsBytes b → length b ≡ n → decode_array n (p.hex_encode b) ≡ some b
    decode_array-encode n b h l = rw (decode_array, hex.decode-encode b h) (ground (arith, l))

    pairwise_key-IsCardOf :
        (me other : Identity) (card : Friend)
        → IsCardOf other card
        → pairwise_key me card
          ≡ ok (derive_pairwise_bytes me.agreement_secret (public other).agreement_public)
    unfolding pairwise_key public
    pairwise_key-IsCardOf me other card c = rw c (
        rw
          (decode_array-encode 32 (p.x25519_public other.agreement_secret)
            (scheme.x25519_public-IsBytes other.agreement_secret)
            (scheme.length-x25519_public other.agreement_secret))
          refl)

    -- Each of two parties derives the same key from its own secret and the other's roster entry.
    pub pairwise_key-agrees :
        (alice bob : Identity) (alice_card bob_card : Friend)
        → IsCardOf alice alice_card
        → IsCardOf bob bob_card
        → pairwise_key alice bob_card ≡ pairwise_key bob alice_card
    pairwise_key-agrees alice bob alice_card bob_card a b =
        pairwise_key-IsCardOf alice bob bob_card b
        ∙ ap ok (derive_pairwise_agrees scheme alice bob)
        ∙ sym (pairwise_key-IsCardOf bob alice alice_card a)

    seal-IsBytes :
        (nonce base key aad : Bytes) → KeyDraws nonce key → IsBytes (seal nonce base key aad)
    unfolding seal
    seal-IsBytes nonce base key aad draws =
        All-append (λ b. b < 256) nonce _ draws.nonce_bytes
          (scheme.encrypt-IsBytes base nonce key aad draws.key_bytes)

    -- A rotated key of 32 bytes that one party seals for the other, with a nonce of 12 bytes and
    -- the other's roster entry, the other opens with the first one's entry.
    pub open_direct_key-seal_direct_key :
        (alice bob : Identity) (alice_card bob_card : Friend) (nonce : Bytes)
        (conversation_id : Str) (epoch : ℕ) (key : SymmetricKey)
        → IsCardOf alice alice_card
        → IsCardOf bob bob_card
        → KeyDraws nonce key
        → (seal_direct_key nonce alice bob_card conversation_id epoch key
            >>= open_direct_key bob alice_card conversation_id epoch)
          ≡ ok key
    unfolding seal_direct_key open_direct_key
    open_direct_key-seal_direct_key alice bob alice_card bob_card nonce conversation_id epoch key a
          b draws =
        let base = derive_pairwise_bytes alice.agreement_secret (public bob).agreement_public in
        let aad = direct_key_aad conversation_id epoch in
        rw (pairwise_key-IsCardOf alice bob bob_card b) (
          rw
            (pairwise_key-IsCardOf bob alice alice_card a
              ∙ ap ok (sym (derive_pairwise_agrees scheme alice bob)))
            (rw
              (hex.decode-encode (seal nonce base key aad) (seal-IsBytes nonce base key aad draws))
              (rw (open_sealed-seal scheme nonce base key aad draws.nonce_size)
                (ground (arith, draws.key_size)))))

    -- A group's key of 32 bytes that the originator seals for a member, with a nonce of 12 bytes
    -- and the member's roster entry, the member opens with the originator's entry.
    pub open_group_key-seal_group_key :
        (alice bob : Identity) (alice_card bob_card : Friend) (nonce : Bytes) (group_id : Str)
        (epoch : ℕ) (key : SymmetricKey)
        → IsCardOf alice alice_card
        → IsCardOf bob bob_card
        → KeyDraws nonce key
        → (seal_group_key nonce alice bob_card group_id epoch key
            >>= open_group_key bob alice_card group_id epoch)
          ≡ ok key
    unfolding seal_group_key open_group_key
    open_group_key-seal_group_key alice bob alice_card bob_card nonce group_id epoch key a b draws =
        let base = derive_pairwise_bytes alice.agreement_secret (public bob).agreement_public in
        let aad = key_aad group_id epoch in
        rw (pairwise_key-IsCardOf alice bob bob_card b) (
          rw
            (pairwise_key-IsCardOf bob alice alice_card a
              ∙ ap ok (sym (derive_pairwise_agrees scheme alice bob)))
            (rw
              (hex.decode-encode (seal nonce base key aad) (seal-IsBytes nonce base key aad draws))
              (rw (open_sealed-seal scheme nonce base key aad draws.nonce_size)
                (ground (arith, draws.key_size)))))

    -- After a rotated key of 32 bytes is stored for a chat at an epoch other than 0, it is the
    -- chat's current key. Its epoch opens with it, epoch 0 with the pairwise key, and every other
    -- epoch is refused.
    pub direct_key_for_epoch-set_direct_key :
        (d : VaultData) (me : Identity) (card : Friend) (epoch e : ℕ) (key : SymmetricKey)
        → IsBytes key
        → length key ≡ 32
        → epoch ≢ 0
        → let d' = set_direct_key (conversation_with me card) epoch (p.hex_encode key) d in
          (current_direct_key d' me card ≡ ok (epoch, key))
          × (direct_key_for_epoch d' me card e ≡ (
              if e == direct_epoch
              then pairwise_key me card
              else if epoch == e
              then ok key
              else err (crypto (text "unknown key epoch"))))
    unfolding current_direct_key direct_key_for_epoch
    direct_key_for_epoch-set_direct_key d me card epoch e key h l ne =
        let c = conversation_with me card in
        let found =
          direct_key-set_direct_key c c epoch (p.hex_encode key) d
          ∙ ap
              (λ t.
                if t
                then some (record { conversation_id = c; epoch = epoch; key = p.hex_encode key })
                else direct_key d c)
              (str_eq_refl c) in
        let read = decode_array-encode 32 key h l in
        (
          rw (current_direct_key, found) (rw read refl),
          rw (direct_key_for_epoch, found) (rw read refl),
        )
