-- ===== src/Commands/Sending.antt =====
-- What one account sends, the other keeps: a message of epoch 0 from the command to the history.
use seqr.Prelude.{ℕ, Bytes, Str, true, false, none, some, ◌≡◌, refl, length}
use seqr.Prelude.Result.{ok}
use seqr.Prelude.Unicode.{is_utf8}
use seqr.Commands.{frame_for, stored_outgoing, signing_hex}
use seqr.Core.Conversation.{direct_conversation_id, pairwise_key, current_direct_key, direct_epoch}
use seqr.Core.Conversation.Keys.{IsCardOf}
use seqr.Core.Message.{build_frame}
use seqr.Core.Packet
use seqr.Core.Serde.{Serde}
use seqr.Core.Vault.{
  VaultData, Friend, friend_by_signing, group_by_id, identity, next_seq, direct_key, add_message,
}
use seqr.Core.VaultFile.{Disk}
use seqr.Crypto.Aead.{nonce_len}
use seqr.Crypto.Error.{SymmetricKey}
use seqr.Crypto.Keys.{Identity}
use seqr.Crypto.Primitives.{Primitives, HexLaws, SchemeLaws, IsBytes}
use seqr.Net.{Unlocked, message, keep, on_message}
use seqr.Protocol.{MessageFrame}
use seqr.Net.Incoming.{known, stored, on_message-build_frame}

module _ ⦃p : Primitives⦄ ⦃s : Serde⦄ where
  -- the sender's account: it is Alice's, Bob is a friend, and their key was never rotated
  pub record Sends (data' : VaultData) (alice : Identity) (bob_card : Friend) (key : SymmetricKey)
      : Type 0 where
    pub me : identity data' ≡ ok alice
    pub friend : friend_by_signing data' bob_card.signing_public ≡ some bob_card
    pub unrotated :
        direct_key data' (direct_conversation_id (signing_hex alice) bob_card.signing_public) ≡ none
    pub shared : pairwise_key alice bob_card ≡ ok key

  -- the receiver's account: it is Bob's, Alice is a friend, and no group has the chat's identifier
  pub record Receives (data' : VaultData) (bob alice : Identity) (alice_card : Friend) (c : Str)
      : Type 0 where
    pub me : identity data' ≡ ok bob
    pub friend : friend_by_signing data' (signing_hex alice) ≡ some alice_card
    pub no_group : group_by_id data' c ≡ none

  -- the frame that the command makes
  abbrev pub sent_frame : Bytes → Identity → Friend → SymmetricKey → VaultData → Str → MessageFrame
  sent_frame nonce alice bob_card key data' body =
      let c = direct_conversation_id (signing_hex alice) bob_card.signing_public in
      build_frame nonce alice c direct_epoch key (next_seq data' c) body

  current_direct_key-Sends :
      (data' : VaultData) (alice : Identity) (bob_card : Friend) (key : SymmetricKey)
      → Sends data' alice bob_card key
      → current_direct_key data' alice bob_card ≡ ok (direct_epoch, key)
  unfolding current_direct_key
  current_direct_key-Sends data' alice bob_card key sends =
      rw (current_direct_key, sends.unrotated) (rw sends.shared refl)

  frame_for-Sends :
      (now : ℕ) (nonce : Bytes) (body : Str) (data' : VaultData) (alice : Identity)
      (bob_card : Friend) (key : SymmetricKey)
      → Sends data' alice bob_card key
      → let c = direct_conversation_id (signing_hex alice) bob_card.signing_public in
        frame_for now nonce bob_card.signing_public body data'
        ≡ ok (
          Packet.message (build_frame nonce alice c direct_epoch key (next_seq data' c) body),
          stored_outgoing now c (signing_hex alice) body (next_seq data' c) none,
        )
  unfolding frame_for
  frame_for-Sends now nonce body data' alice bob_card key sends =
      rw sends.me
        (rw sends.friend (rw (current_direct_key-Sends data' alice bob_card key sends) refl))

  -- If two accounts are friends and never rotated their key, the command of one frames a text in
  -- UTF-8 under their key of epoch 0, and the other's desktop keeps that text, if the number is new
  -- there and no group has the chat's identifier.
  pub on_message-frame_for :
      HexLaws p
      → SchemeLaws p
      → (alice bob : Identity) (alice_card bob_card : Friend) (key : SymmetricKey)
        (data' : VaultData) (body : Str) (now later : ℕ) (nonce save_nonce : Bytes) (disk : Disk)
        (u : Unlocked)
      → IsCardOf alice alice_card
      → IsCardOf bob bob_card
      → Sends data' alice bob_card key
      → Receives u.data' bob alice alice_card
          (direct_conversation_id (signing_hex alice) bob_card.signing_public)
      → IsBytes nonce
      → length nonce ≡ nonce_len
      → IsBytes body
      → is_utf8 body ≡ true
      → known u.data' (sent_frame nonce alice bob_card key data' body) ≡ false
      → let c = direct_conversation_id (signing_hex alice) bob_card.signing_public in
        let frame = sent_frame nonce alice bob_card key data' body in
        (frame_for now nonce bob_card.signing_public body data'
          ≡ ok (
            Packet.message frame,
            stored_outgoing now c (signing_hex alice) body (next_seq data' c) none,
          ))
        × (on_message later save_nonce frame disk u
            ≡ keep save_nonce
                (add_message (stored later frame body) u.data')
                (message (stored later frame body))
                disk
                u)
  on_message-frame_for hex scheme alice bob alice_card bob_card key data' body now later nonce
        save_nonce disk u a b sends receives nb nl pb utf8 new =
      let c = direct_conversation_id (signing_hex alice) bob_card.signing_public in
      (
        frame_for-Sends now nonce body data' alice bob_card key sends,
        on_message-build_frame hex scheme alice bob alice_card bob_card key c (next_seq data' c)
            body later nonce save_nonce disk u a b sends.shared nb nl pb utf8 receives.me
            receives.no_group receives.friend new,
      )
