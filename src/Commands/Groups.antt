-- ===== src/Commands/Groups.antt =====
-- commands.rs: groups and the rotation of keys. The nonces of the sealed keys are a sequence.
pub mod Invited
pub mod Rotation
use seqr.Prelude.{
  ℕ, ◌+◌, ◌%◌, ◌^◌, Bytes, Str, text, Bool, false, not, List, [], ◌∷◌, ◌++◌, Option, none, some,
  map, length, all, find, ◌≡◌, refl, ap, ◌∙◌, if◌then◌else◌, retain, str_eq, leb, ◌&&◌, ◌||◌, ◌==◌,
  arith, is_ascii_digit, sym, str_eq_refl, inl, inr,
}
use seqr.Prelude.Result.{ok, ok_or, ◌>>=◌, >>=-eq-ok, Result-cases}
use seqr.Commands.{Locked, Outgoing, tried, saved, signing_hex, ConversationDto}
use seqr.Core.Conversation.{direct_conversation_id, current_direct_key, seal_direct_key}
use seqr.Core.Error.{CoreResult, crypto, unknown_sender}
use seqr.Core.Group.{seal_group_key, new_group_id}
use seqr.Core.Identity.{self_as_friend}
use seqr.Core.Packet.{group_invite, key_update, GroupInvite}
use seqr.Core.Serde.{Serde}
use seqr.Core.Vault.{
  VaultData, Friend, Group, signs_as, friend_by_signing, group_by_id, group_key, set_group,
  set_direct_key, identity,
}
use seqr.Core.VaultFile.{Disk, save}
use seqr.Net.Invites.{set_group-find}
use seqr.Crypto.Error.{SymmetricKey}
use seqr.Crypto.Keys.{Identity}
use seqr.Crypto.Primitives.{Primitives}
use seqr.Net.{Unlocked}

-- the friends of the selected keys
unfoldable pub selected : VaultData → List Str → CoreResult (List Friend)
selected data' [] = ok []
selected data' (key ∷ keys) = do
  friend ← ok_or (friend_by_signing data' key) unknown_sender
  rest ← selected data' keys
  ok (friend ∷ rest)

unfoldable pub valid_att_id : Str → Bool
valid_att_id id =
    not (length id == 0)
    && (leb (length id) 64
        && all (λ b. is_ascii_digit b || ((leb b'a' b && leb b b'f') || (leb b'A' b && leb b b'F')))
            id)

-- whether a member is the one to remove
abbrev pub removes : Option Str → Friend → Bool
removes none m = false
removes (some key) m = signs_as key m

module _ ⦃p : Primitives⦄ where
  -- one sealed invite for each recipient; `invite` holds what they have in common
  unfoldable pub invites :
      (ℕ → Bytes) → Identity → GroupInvite → SymmetricKey → List Friend → CoreResult (List Outgoing)
  invites nonces me invite kg [] = ok []
  invites nonces me invite kg (recipient ∷ rest) = do
    sealed ← seal_group_key (nonces 0) me recipient invite.group_id invite.epoch kg
    others ← invites (λ i. nonces (i + 1)) me invite kg rest
    ok (
        record {
          recipient = recipient.signing_public;
          packet = group_invite (record invite { sealed_key = sealed });
        }
        ∷ others)

  unfoldable pub resolve_send_ctx : VaultData → Str → Str → CoreResult (SymmetricKey × ℕ × List Str)
  resolve_send_ctx data' conversation_id my_signing = elim (group_by_id data' conversation_id) [
    | some g ↦ (do
      key ← ok_or (group_key data' conversation_id) (crypto (text "no group key"))
      ok (key, g.epoch, map (λ m. m.signing_public) g.members))
    | none ↦ (do
      me ← identity data'
      friend ←
          ok_or
            (find (λ f. str_eq (direct_conversation_id my_signing f.signing_public) conversation_id)
              data'.friends)
            unknown_sender
      current ← current_direct_key data' me friend
      ok (current.1, current.0, friend.signing_public ∷ []))
  ]

  module _ ⦃s : Serde⦄ where
    -- the new group key and the identifier are drawn
    unfoldable pub create_group :
        (ℕ → Bytes)
        → Bytes
        → SymmetricKey
        → Bytes
        → Str
        → List Str
        → Disk
        → Unlocked
        → Locked (ConversationDto × List Outgoing)
    create_group nonces save_nonce kg id_random name members disk u =
        tried disk u
          (do
            me ← identity u.data'
            roster_others ← selected u.data' members
            mine ← self_as_friend u.data'
            ok (me, roster_others, mine))
          (λ made.
            let (me, roster_others, mine) = made in
            let group_id = new_group_id id_random in
            let group : Group = record {
              id = group_id;
              name = name;
              members = roster_others;
              epoch = 0;
              key = p.hex_encode kg;
            } in
            let invite : GroupInvite = record {
              group_id = group_id;
              name = name;
              epoch = 0;
              members = mine ∷ roster_others;
              originator = signing_hex me;
              sealed_key = [];
            } in
            let dto : ConversationDto = record {
              id = group_id;
              kind = text "group";
              title = name;
              peer = none;
              members = length roster_others + 1;
            } in
            saved save_nonce (record u.data' { groups = u.data'.groups ++ group ∷ [] })
              (do sent ← invites nonces me invite kg roster_others; ok (dto, sent)) disk u)

    -- what is left of a group when the key changes
    abbrev pub remaining : Option Str → Group → List Friend
    remaining remove g = retain (λ m. not (removes remove m)) g.members

    unfoldable pub rebuild_group_keys :
        (ℕ → Bytes)
        → Bytes
        → SymmetricKey
        → Str
        → Option Str
        → Disk
        → Unlocked
        → Locked (List Outgoing)
    rebuild_group_keys nonces save_nonce new_kg group_id remove disk u =
        tried disk u
          (do
            me ← identity u.data'
            g ← ok_or (group_by_id u.data' group_id) unknown_sender
            ok (me, g))
          (λ made.
            let (me, g) = made in
            let new_epoch = (g.epoch + 1) % 2 ^ 64 in
            let data' : VaultData = record u.data' {
              groups =
                  set_group group_id
                    (λ group. record group {
                      members = remaining remove g;
                      epoch = new_epoch;
                      key = p.hex_encode new_kg;
                    })
                    u.data'.groups;
            } in
            saved save_nonce data'
              (do
                mine ← self_as_friend data'
                let invite : GroupInvite = record {
                  group_id = group_id;
                  name = g.name;
                  epoch = new_epoch;
                  members = mine ∷ remaining remove g;
                  originator = signing_hex me;
                  sealed_key = [];
                }
                invites nonces me invite new_kg (remaining remove g))
              disk u)

    unfoldable pub rotate_direct :
        Bytes → Bytes → SymmetricKey → Str → Disk → Unlocked → Locked Outgoing
    rotate_direct nonce save_nonce new_key friend disk u =
        tried disk u
          (do
            me ← identity u.data'
            friend_rec ← ok_or (friend_by_signing u.data' friend) unknown_sender
            current ← current_direct_key u.data' me friend_rec
            ok (me, friend_rec, current.0))
          (λ made.
            let (me, friend_rec, cur_epoch) = made in
            let conv_id = direct_conversation_id (signing_hex me) friend in
            let new_epoch = (cur_epoch + 1) % 2 ^ 64 in
            saved save_nonce (set_direct_key conv_id new_epoch (p.hex_encode new_key) u.data')
              (do
                sealed ← seal_direct_key nonce me friend_rec conv_id new_epoch new_key
                ok (record {
                  recipient = friend;
                  packet = key_update (record {
                    conversation_id = conv_id;
                    epoch = new_epoch;
                    originator = signing_hex me;
                    sealed_key = sealed;
                  });
                }))
              disk u)
