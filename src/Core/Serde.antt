-- ===== src/Core/Serde.antt =====
-- What the desktop takes from serde_json, as a parameter: the JSON of its types, and that it reads
-- back what it wrote. A failed read gives the text of the error.
use seqr.Prelude.{ℕ, Bytes, Str, ◌≡◌}
use seqr.Prelude.Result.{Result, ok}
use seqr.Crypto.Primitives.{IsBytes}
use seqr.Core.Packet.{Packet}
use seqr.Core.Vault.{VaultData}
use seqr.Protocol.{ProfileBlob}

-- the envelope of core/vault.rs
pub record VaultFile : Type 0 where
  pub v : ℕ
  pub salt : Str
  pub sealed : Str

pub record Serde : Type 0 where
  pub data_to_json : VaultData → Bytes
  pub data_from_json : Bytes → Result Str VaultData
  pub file_to_json : VaultFile → Str
  pub file_from_json : Str → Result Str VaultFile
  pub packet_to_json : Packet → Bytes
  pub packet_from_json : Bytes → Result Str Packet
  pub profile_to_json : ProfileBlob → Bytes
  pub profile_from_json : Bytes → Result Str ProfileBlob

-- serde_json reads back what it wrote: the vault's contents, the file around them, a packet and a
-- profile. The JSON of the contents and of a profile is a sequence of bytes.
module _ (s : Serde) where
  abbrev pub ReadsData : VaultData → Type 0
  ReadsData d = (s.data_from_json (s.data_to_json d) ≡ ok d) × IsBytes (s.data_to_json d)

  abbrev pub ReadsFile : VaultFile → Type 0
  ReadsFile f = s.file_from_json (s.file_to_json f) ≡ ok f

  abbrev pub ReadsPacket : Packet → Type 0
  ReadsPacket k = s.packet_from_json (s.packet_to_json k) ≡ ok k

  abbrev pub ReadsProfile : ProfileBlob → Type 0
  ReadsProfile b =
      (s.profile_from_json (s.profile_to_json b) ≡ ok b) × IsBytes (s.profile_to_json b)
