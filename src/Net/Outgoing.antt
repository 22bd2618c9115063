-- ===== src/Net/Outgoing.antt =====
-- apps/desktop/src-tauri/src/net.rs: how a packet and an attachment leave. Whether a peer takes a direct send in time is a
-- parameter. The events for the user interface and the debug lines are not here.
pub mod Stream
use seqr.Prelude.{
  ℕ, zero, suc, ◌+◌, Bytes, Str, Bool, true, false, List, [], ◌∷◌, ◌++◌, Option, none, some,
  if◌then◌else◌, take, drop,
}
use seqr.Prelude.Result.{Result, ok, err}
use seqr.Core.Attachment.{chunk_size, seal_chunk}
use seqr.Core.Attachment.Files.{Files, open_file}
use seqr.Core.Attachment.Rest.{fill}
use seqr.Core.Error.{CoreError, CoreResult}
use seqr.Core.Packet.{Packet, AttachmentMeta, AttachmentChunk, attachment_meta, attachment_chunk}
use seqr.Core.Serde.{Serde}
use seqr.Core.Transport.{SendStream, write_lp, then_write}
use seqr.Core.Vault.{decode_array}
use seqr.Crypto.Error.{SymmetricKey}
use seqr.Crypto.Primitives.{Primitives}
use seqr.Protocol.Requests.{PushRequest}

-- where one packet goes: straight to the peer of a signing key, or to the recipient's mailbox
pub data Route : Type 0 where
  bad_recipient : Route
  direct : Bytes → Bytes → Route
  parked : PushRequest → Route

module _ ⦃p : Primitives⦄ where
  -- `deliver`. The test tells whether there is a transport whose send to the key is acknowledged in time;
  -- a packet's JSON is UTF-8 already.
  unfoldable pub deliver : (Bytes → Bytes → Bool) → Str → Bytes → Route
  deliver reaches recipient_hex payload = elim (decode_array 32 recipient_hex) [
    | none ↦ bad_recipient
    | some signing ↦
        if reaches signing payload
        then direct signing payload
        else parked (record { to = recipient_hex; payload = payload })
  ]

  -- the chunks of what is left of a file, sealed, from an index on. `fill` is `read_fill`.
  unfoldable pub sealed_chunks : (ℕ → Bytes) → SymmetricKey → Str → ℕ → ℕ → Bytes → List Bytes
  sealed_chunks nonces key att_id zero index input = []
  sealed_chunks nonces key att_id (suc n) index input =
      let (plain, input') = fill chunk_size input in
      seal_chunk (nonces index) key att_id index plain
      ∷ sealed_chunks nonces key att_id n (index + 1) input'

  -- frames one after the other, until one fails
  unfoldable pub write_chunks : List Bytes → SendStream → SendStream × CoreResult (Unit {0})
  write_chunks [] stream = (stream, ok tt)
  write_chunks (ct ∷ rest) stream = then_write (write_lp ct stream) (write_chunks rest)

  unfoldable pub stream_attachment :
      (ℕ → Bytes)
      → Bytes
      → AttachmentMeta
      → SymmetricKey
      → Str
      → Files
      → SendStream
      → SendStream × CoreResult (Unit {0})
  unfolding sealed_chunks write_chunks
  stream_attachment nonces meta_json meta key src fs stream =
      then_write (write_lp meta_json stream) (λ stream'. elim (open_file src fs) [
        | err e ↦ (stream', err e)
        | ok input ↦ write_chunks (sealed_chunks nonces key meta.att_id meta.chunks 0 input) stream'
      ])

  -- the packets of chunks, from an index on
  abbrev chunk_packets : Str → ℕ → List Bytes → List Packet
  chunk_packets att_id index [] = []
  chunk_packets att_id index (ct ∷ rest) =
      attachment_chunk (record { att_id = att_id; index = index; data' = p.hex_encode ct })
      ∷ chunk_packets att_id (index + 1) rest

  -- the packets that `mailbox_chunks` delivers, none for a file that is not there
  unfoldable pub mailbox_chunks :
      (ℕ → Bytes) → AttachmentMeta → SymmetricKey → Str → Files → List Packet
  unfolding sealed_chunks
  mailbox_chunks nonces meta key src fs = elim (open_file src fs) [
    | err e ↦ []
    | ok input ↦
        chunk_packets meta.att_id 0 (sealed_chunks nonces key meta.att_id meta.chunks 0 input)
  ]

  module _ ⦃s : Serde⦄ where
    abbrev deliver_all : (Bytes → Bytes → Bool) → Str → List Packet → List Route
    deliver_all reaches recipient [] = []
    deliver_all reaches recipient (k ∷ ks) =
        deliver reaches recipient (s.packet_to_json k) ∷ deliver_all reaches recipient ks

    -- the mailbox fallback of one recipient: the header, then the chunks
    abbrev fallback :
        (Bytes → Bytes → Bool)
        → (ℕ → Bytes)
        → Str
        → AttachmentMeta
        → SymmetricKey
        → Str
        → Files
        → List Route
    fallback reaches nonces recipient meta key src fs =
        deliver_all reaches recipient (attachment_meta meta ∷ mailbox_chunks nonces meta key src fs)

    -- `deliver_attachment`, by recipient: what goes over a stream, and what else is delivered. Opening a stream to
    -- a key gives it, if the peer is reached; the last test tells whether the peer acknowledged it.
    unfoldable pub deliver_attachment :
        (Bytes → Option SendStream)
        → (SendStream → Bool)
        → (Bytes → Bytes → Bool)
        → (ℕ → Bytes)
        → List Str
        → AttachmentMeta
        → SymmetricKey
        → Str
        → Files
        → List (Str × Option SendStream × List Route)
    unfolding stream_attachment
    deliver_attachment dial acknowledged reaches nonces [] meta key src fs = []
    deliver_attachment dial acknowledged reaches nonces (recipient ∷ others) meta key src fs =
        let rest = deliver_attachment dial acknowledged reaches nonces others meta key src fs in
        let parked_chunks = fallback reaches nonces recipient meta key src fs in
        elim (decode_array 32 recipient) [
          | none ↦ rest
          | some signing ↦ elim (dial signing) [
            | none ↦ (recipient, none, parked_chunks) ∷ rest
            | some stream ↦
                let (written, r) =
                  stream_attachment nonces (s.packet_to_json (attachment_meta meta)) meta key src fs
                    stream in
                elim r [
                  | err e ↦ (recipient, some written, parked_chunks) ∷ rest
                  | ok _ ↦
                      if acknowledged written
                      then (recipient, some written, []) ∷ rest
                      else (recipient, some written, parked_chunks) ∷ rest
                ]
          ]
        ]
