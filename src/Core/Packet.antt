-- ===== src/Core/Packet.antt =====
-- core/packet.rs: what peers send one another.
use seqr.Prelude.{ℕ, Bytes, Str, text, decimal, List, [], ◌∷◌, join}
use seqr.Core.Vault.{Friend}
use seqr.Protocol.{MessageFrame, ProfileBlob}

pub record AttachmentMeta : Type 0 where
  pub att_id : Str
  pub conversation_id : Str
  pub epoch : ℕ
  pub sender : Str
  pub seq : ℕ
  pub filename : Str
  pub mime : Str
  pub size : ℕ
  pub chunks : ℕ
  pub signature : Str

-- fields behind a head, each after a bar: `format!("{head}|{}|{}…")`
abbrev pub barred : Str → List Str → Str
barred head fields = join (text "|") (head ∷ fields)

-- `AttachmentMeta::signing_bytes`
unfoldable pub meta_signing_bytes : AttachmentMeta → Bytes
meta_signing_bytes m = barred (text "seqr/attmeta/v1") (
    m.att_id
    ∷ m.conversation_id
    ∷ decimal m.epoch
    ∷ m.sender
    ∷ decimal m.seq
    ∷ m.filename
    ∷ m.mime
    ∷ decimal m.size
    ∷ decimal m.chunks
    ∷ [])

pub record AttachmentChunk : Type 0 where
  pub att_id : Str
  pub index : ℕ
  pub data' : Str

pub record FriendRequest : Type 0 where
  pub profile : ProfileBlob
  pub signature : Str

unfoldable pub friend_req_signing_bytes : ProfileBlob → Bytes
friend_req_signing_bytes p =
    barred (text "seqr/friendreq/v1")
      (p.signing_public ∷ p.agreement_public ∷ p.node_addr ∷ p.display_name ∷ [])

pub record KeyUpdate : Type 0 where
  pub conversation_id : Str
  pub epoch : ℕ
  pub originator : Str
  pub sealed_key : Str

pub record GroupInvite : Type 0 where
  pub group_id : Str
  pub name : Str
  pub epoch : ℕ
  pub members : List Friend
  pub originator : Str
  pub sealed_key : Str

pub data Packet : Type 0 where
  message : MessageFrame → Packet
  group_invite : GroupInvite → Packet
  key_update : KeyUpdate → Packet
  friend_request : FriendRequest → Packet
  attachment_meta : AttachmentMeta → Packet
  attachment_chunk : AttachmentChunk → Packet
