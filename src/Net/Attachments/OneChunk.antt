-- ===== src/Net/Attachments/OneChunk.antt =====
-- What one chunk of an attachment does, and the message that records a complete one.
use seqr.Prelude.{ℕ, ◌≡◌, refl, Bytes, Str, true, false, [], ◌∷◌, some, take, drop, zero, suc}
use seqr.Prelude.Assoc.{insert, remove}
use seqr.Prelude.Result.{ok}
use seqr.Core.Attachment.Reassembly.{Reassembler, add_chunk}
use seqr.Core.Serde.{Serde}
use seqr.Core.Vault.{StoredMessage, add_message}
use seqr.Crypto.Primitives.{Primitives, IsBytes}
use seqr.Net.{Unlocked, nothing, with_unlocked}
use seqr.Net.Attachments.{Node, Moment, record_of, record_message, finish, chunk_at}

pub IsBytes-take : (n : ℕ) (b : Bytes) → IsBytes b → IsBytes (take n b)
IsBytes-take zero b h = tt
IsBytes-take (suc n) [] h = tt
IsBytes-take (suc n) (x ∷ b) (hx, h) = (hx, IsBytes-take n b h)

pub IsBytes-drop : (n : ℕ) (b : Bytes) → IsBytes b → IsBytes (drop n b)
IsBytes-drop zero b h = h
IsBytes-drop (suc n) [] h = tt
IsBytes-drop (suc n) (x ∷ b) (hx, h) = IsBytes-drop n b h

module _ ⦃p : Primitives⦄ ⦃s : Serde⦄ where
  pub chunk_at-kept :
      (at : Moment) (id : Str) (index : ℕ) (ct : Bytes) (r : Reassembler) (node : Node)
      → let (r', fs', added) = add_chunk index ct r node.files in
        added ≡ ok false
        → chunk_at at id index ct r node
          ≡ (record node { files = fs'; reassembly = insert id r' node.reassembly }, ok nothing)
  unfolding chunk_at
  chunk_at-kept at id index ct r node more = rw (chunk_at, more) refl

  pub chunk_at_complete :
      (at : Moment) (id : Str) (index : ℕ) (ct : Bytes) (r : Reassembler) (node : Node)
      → let (r', fs', added) = add_chunk index ct r node.files in
        added ≡ ok true
        → chunk_at at id index ct r node
          ≡ finish at r' (record node { files = fs'; reassembly = remove id node.reassembly })
  unfolding chunk_at
  chunk_at_complete at id index ct r node all = rw (chunk_at, all) refl

  -- the message that records the attachment of a reassembler
  abbrev pub noted : Moment → Reassembler → StoredMessage
  noted at r = record_of at.now r.conversation_id r.sender r.seq r.info

  pub record_message-unlocked :
      (u : Unlocked) (at : Moment) (msg : StoredMessage) (node : Node)
      → node.session.unlocked ≡ some u
      → let node' = (record_message at msg node).0 in
        (node'.session.unlocked ≡ some (record u { data' = add_message msg u.data' }))
        × (node'.files ≡ node.files)
        × (node'.reassembly ≡ node.reassembly)
  unfolding record_message with_unlocked
  record_message-unlocked u at msg node open_now =
      rw (record_message, with_unlocked, open_now) (refl, refl, refl)
