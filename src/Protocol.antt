-- ===== src/Protocol.antt =====
-- crates/seqr-protocol/src/lib.rs: the data exchanged between peers, and the bytes that a frame's
-- signature covers. Requests of the mailbox are in the child.
pub mod Requests
use seqr.Prelude.{ℕ, Bytes, Str, text, ◌++◌, decimal, []}

-- hex text of 32 bytes
abbrev pub HexKey : Type 0
HexKey = Str

pub record ProfileBlob : Type 0 where
  pub v : ℕ
  pub display_name : Str
  pub agreement_public : HexKey
  pub signing_public : HexKey
  pub node_addr : Str

-- `ProfileBlob::VERSION`
abbrev pub version : ℕ
version = 1

pub record MessageFrame : Type 0 where
  pub conversation_id : Str
  pub epoch : ℕ
  pub sender : HexKey
  pub seq : ℕ
  pub signature : HexKey
  pub ciphertext : HexKey

abbrev pub bar : Str
bar = text "|"

-- `MessageFrame::signing_bytes`
unfoldable pub signing_bytes : Str → ℕ → Str → ℕ → Str → Bytes
signing_bytes conversation_id epoch sender seq ciphertext_hex =
    text "seqr/frame/v1|"
    ++ (conversation_id
        ++ (bar
            ++ (decimal epoch
                ++ (bar ++ (sender ++ (bar ++ (decimal seq ++ (bar ++ ciphertext_hex))))))))

pub record KeyEnvelope : Type 0 where
  pub conversation_id : Str
  pub epoch : ℕ
  pub originator : HexKey
  pub sealed_key : HexKey
