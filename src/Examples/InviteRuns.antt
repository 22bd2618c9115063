-- ===== src/Examples/InviteRuns.antt =====
-- A friend request, an invite and a key update, and the theorems on them.
use seqr.Prelude.{
  text, [], ◌∷◌, ◌++◌, Str, decimal, some, ◌≡◌, refl, ◌≤◌, str_eq, ◌⊎◌, if◌then◌else◌,
}
use seqr.Prelude.Result.{ok, err}
use seqr.Core.Error.{CoreError}
use seqr.Core.Conversation.{seal_direct_key, open_direct_key, direct_key_aad}
use seqr.Core.Identity.{friend_from}
use seqr.Core.Packet.{FriendRequest, KeyUpdate, GroupInvite}
use seqr.Core.Vault.{VaultData, Group, group_by_id, direct_key, identity, friend_by_signing}
use seqr.Core.Vault.Roster.{IsRoster}
use seqr.Crypto.Aead.{seal, open_sealed}
use seqr.Crypto.Agreement.{derive_pairwise_bytes}
use seqr.Crypto.Keys.{from_secret_bytes}
use seqr.Crypto.Error.{SymmetricKey}
use seqr.Examples.Toy.{toy, toy_serde}
use seqr.Net.{Unlocked, on_friend_request, on_key_update, verify_request, open_update}
use seqr.Net.Incoming.{on_friend_request-IsRoster}
use seqr.Net.Invites.{handle_invites, handle_invites-epoch, on_key_update-cases}
use seqr.Examples.PeerRuns.{
  alice, alice_card, bob_card, bob_data, bob_profile, nonce, new_key, disk, account,
}

abbrev friend_request : FriendRequest
friend_request = record { profile = bob_profile; signature = text "00" }

abbrev asked : VaultData
asked = (on_friend_request ⦃p = toy⦄ ⦃s = toy_serde⦄ nonce friend_request disk account).1.data'

on_friend_request-IsRoster_example :
    IsRoster asked
    × (asked ≡ record bob_data { pending_requests = asked.pending_requests })
    × ((asked.pending_requests ≡ bob_data.pending_requests)
        ⊎ ((verify_request ⦃p = toy⦄ friend_request ≡ ok tt)
            × (asked.pending_requests ≡ bob_data.pending_requests ++ friend_from bob_profile ∷ [])))
on_friend_request-IsRoster_example =
    on_friend_request-IsRoster ⦃p = toy⦄ ⦃s = toy_serde⦄ nonce friend_request disk account
      (record { friends_distinct = (refl, tt); requests_distinct = tt; apart = tt })

abbrev invite : GroupInvite
invite = record {
  group_id = text "g";
  name = text "Group";
  epoch = 1;
  members = alice_card ∷ bob_card ∷ [];
  originator = alice_card.signing_public;
  sealed_key = text "00";
}

abbrev older_group : Group
older_group = record {
  id = text "g";
  name = text "Old";
  members = alice_card ∷ [];
  epoch = 0;
  key = [];
}

abbrev in_group : VaultData
in_group = record bob_data { groups = older_group ∷ [] }

abbrev member : Unlocked
member = record { vault_key = new_key; data' = in_group }

older_group-found : group_by_id in_group (text "g") ≡ some older_group
unfolding group_by_id str_eq
older_group-found = refl

handle_invites-epoch_example :
    (g : Group) × (group_by_id
        (handle_invites ⦃p = toy⦄ ⦃s = toy_serde⦄ ((nonce, invite) ∷ []) disk member).1.data'
        (text "g")
      ≡ some g)
    × (0 ≤ g.epoch)
handle_invites-epoch_example =
    handle_invites-epoch ⦃p = toy⦄ ⦃s = toy_serde⦄ ((nonce, invite) ∷ []) disk member (text "g")
      older_group older_group-found

abbrev sealed : Str
sealed = elim (seal_direct_key ⦃p = toy⦄ nonce alice bob_card (text "c") 1 new_key) [
  | ok s ↦ s
  | err e ↦ []
]

-- a key that Alice sealed for Bob
abbrev update : KeyUpdate
update = record {
  conversation_id = text "c";
  epoch = 1;
  originator = alice_card.signing_public;
  sealed_key = sealed;
}

-- The update opens.
update_opens : open_update ⦃p = toy⦄ bob_data update ≡ ok new_key
unfolding open_update seal_direct_key open_direct_key identity from_secret_bytes friend_by_signing
    str_eq seal derive_pairwise_bytes direct_key_aad decimal open_sealed
update_opens = refl

on_key_update-cases_example :
    ((e : CoreError) × (open_update ⦃p = toy⦄ bob_data update ≡ err e)
      × (on_key_update ⦃p = toy⦄ ⦃s = toy_serde⦄ nonce update disk account
          ≡ (disk, account, err e)))
    ⊎ ((key : SymmetricKey) × (open_update ⦃p = toy⦄ bob_data update ≡ ok key)
        × (direct_key
              (on_key_update ⦃p = toy⦄ ⦃s = toy_serde⦄ nonce update disk account).1.data'
              (text "c")
            ≡ (if str_eq (text "c") (text "c")
                then some
                    (record { conversation_id = text "c"; epoch = 1; key = toy.hex_encode key })
                else direct_key bob_data (text "c"))))
on_key_update-cases_example =
    on_key_update-cases ⦃p = toy⦄ ⦃s = toy_serde⦄ nonce update disk account (text "c")
