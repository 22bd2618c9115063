-- ===== src/Commands/Groups/Rotation.antt =====
-- Who gets a rotated group key, and what the group is then.
use seqr.Prelude.{◌+◌, ◌%◌, ◌^◌, Str, [], ◌∷◌, Option}
use seqr.Commands.{signing_hex}
use seqr.Core.Packet.{GroupInvite}
use seqr.Core.Serde.{Serde}
use seqr.Core.Vault.{VaultData, Friend, Group, set_group}
use seqr.Crypto.Error.{SymmetricKey}
use seqr.Crypto.Keys.{Identity}
use seqr.Crypto.Primitives.{Primitives}
use seqr.Commands.Groups.{remaining}

module _ ⦃p : Primitives⦄ where
  module _ ⦃s : Serde⦄ where
    -- the group with its new key
    abbrev rotated : SymmetricKey → Option Str → Group → Group → Group
    rotated new_kg remove g group = record group {
      members = remaining remove g;
      epoch = (g.epoch + 1) % 2 ^ 64;
      key = p.hex_encode new_kg;
    }

    abbrev rebuilt : SymmetricKey → Str → Option Str → Group → VaultData → VaultData
    rebuilt new_kg group_id remove g data' = record data' {
      groups = set_group group_id (rotated new_kg remove g) data'.groups;
    }

    abbrev common : Str → Group → Option Str → Identity → Friend → GroupInvite
    common group_id g remove me mine = record {
      group_id = group_id;
      name = g.name;
      epoch = (g.epoch + 1) % 2 ^ 64;
      members = mine ∷ remaining remove g;
      originator = signing_hex me;
      sealed_key = [];
    }
