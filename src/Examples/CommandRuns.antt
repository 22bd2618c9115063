-- ===== src/Examples/CommandRuns.antt =====
-- The commands: Alice sends Bob a message, and takes a member out of a group.
use seqr.Prelude.{
  ℕ, ltb, ◌&&◌, not, ◌==◌, true, Bool, split, strip_prefix, str_eq, Str, text, true, false, List,
  [], ◌∷◌, none, some, ◌≡◌, refl, arith, replicate,
}
use seqr.Prelude.Result.{ok, err}
use seqr.Prelude.Unicode.{is_utf8, trim, white_start, white_end}
use seqr.Core.Config.File.{toml_of}
use seqr.Commands.{frame_for, stored_outgoing, signing_hex, Outgoing}
use seqr.Commands.Groups.{rebuild_group_keys}
use seqr.Commands.Sending.{sent_frame, on_message-frame_for}
use seqr.Core.Conversation.{direct_conversation_id}
use seqr.Core.Config.{
  p2p, resolve, read_lines, read_line, lines_of, value_of, trim_quotes, parse_backend,
}
use seqr.Prelude.Assoc.{Assoc, lookup}
use seqr.Core.Error.{CoreResult}
use seqr.Core.Packet
use seqr.Core.Vault.{
  Friend, VaultData, Group, friend_by_signing, group_by_id, identity, decode32, next_seq,
  direct_key, add_message, has_incoming, default_settings,
}
use seqr.Core.VaultFile.{Disk}
use seqr.Crypto.Keys.{Identity, from_secret_bytes}
use seqr.Protocol.{MessageFrame}
use seqr.Examples.PeerRuns.{
  alice, bob, alice_card, bob_card, bob_data, card, nonce, new_key, shared, disk, account,
  nonce-IsBytes, bob-identity, alice-shared, alice-found,
}
use seqr.Examples.Toy.{toy, toy_hex, toy_scheme, toy_serde}
use seqr.Net.{Unlocked, message, keep, on_message}
use seqr.Net.Incoming.{stored, known}

abbrev carol : Identity
carol = record { agreement_secret = []; signing_key = [] }

abbrev carol_card : Friend
carol_card = card (text "Carol") carol

abbrev group : Group
group = record {
  id = text "g";
  name = text "Group";
  members = bob_card ∷ carol_card ∷ [];
  epoch = 4;
  key = toy.hex_encode new_key;
}

-- Alice's account, with Bob as a friend and one group
abbrev alice_data : VaultData
alice_data = record {
  display_name = text "Alice";
  agreement_secret = toy.hex_encode alice.agreement_secret;
  signing_secret = toy.hex_encode alice.signing_key;
  node_addr = [];
  friends = bob_card ∷ [];
  messages = [];
  groups = group ∷ [];
  direct_keys = [];
  pending_requests = [];
  settings = default_settings;
}

alice-identity : identity ⦃p = toy⦄ alice_data ≡ ok alice
unfolding identity decode32 from_secret_bytes
alice-identity = refl

bob-found : friend_by_signing alice_data bob_card.signing_public ≡ some bob_card
unfolding friend_by_signing str_eq
bob-found = refl

abbrev chat : Str
chat = direct_conversation_id (signing_hex ⦃p = toy⦄ alice) bob_card.signing_public

alice-unrotated : direct_key alice_data chat ≡ none
unfolding direct_key
alice-unrotated = refl

bob-no_group : group_by_id bob_data chat ≡ none
unfolding group_by_id
bob-no_group = refl

abbrev frame : MessageFrame
frame = sent_frame ⦃p = toy⦄ ⦃s = toy_serde⦄ nonce alice bob_card shared alice_data (text "hi")

frame-new : known bob_data frame ≡ false
unfolding has_incoming
frame-new = refl

on_message-frame_for_example :
    (frame_for ⦃p = toy⦄ ⦃s = toy_serde⦄ 7 nonce bob_card.signing_public (text "hi") alice_data
      ≡ ok (
        Packet.message frame,
        stored_outgoing 7 chat
            (signing_hex ⦃p = toy⦄ alice)
            (text "hi")
            (next_seq alice_data chat)
            none,
      ))
    × (on_message ⦃p = toy⦄ ⦃s = toy_serde⦄ 8 nonce frame disk account
        ≡ keep ⦃p = toy⦄ ⦃s = toy_serde⦄ nonce
            (add_message (stored 8 frame (text "hi")) bob_data)
            (message (stored 8 frame (text "hi")))
            disk
            account)
unfolding is_utf8
on_message-frame_for_example =
    on_message-frame_for ⦃p = toy⦄ ⦃s = toy_serde⦄ toy_hex toy_scheme alice bob alice_card bob_card
      shared alice_data (text "hi") 7 8 nonce nonce disk account refl refl
      (record {
        me = alice-identity;
        friend = bob-found;
        unrotated = alice-unrotated;
        shared = alice-shared;
      })
      (record { me = bob-identity; friend = alice-found; no_group = bob-no_group }) nonce-IsBytes
      refl (omega arith) refl frame-new

abbrev pub alice_account : Unlocked
alice_account = record { vault_key = new_key; data' = alice_data }

-- the vault of an account that was saved before
abbrev pub saved_disk : Disk
saved_disk = record {
  data_dir = true;
  vault = some (
      toy_serde.file_to_json
        (record { v = 1; salt = toy.hex_encode (replicate 16 4); sealed = [] }));
  refuses = none;
}

abbrev removal : CoreResult (List Outgoing)
removal =
    (rebuild_group_keys ⦃p = toy⦄ ⦃s = toy_serde⦄ (λ _. nonce) nonce new_key (text "g")
      (some bob_card.signing_public) saved_disk alice_account).2

abbrev sent : List Outgoing
sent = elim removal [ ok outgoing ↦ outgoing | err e ↦ [] ]

abbrev no_env : Assoc Str
no_env = []

abbrev is_plain : ℕ → Bool
is_plain c = (ltb 32 c && ltb c 128) && (not (c == b'=') && not (c == b'"'))

abbrev settings : Str
settings = toml_of (text "https://a:1") (text "https://b") (text "p2p")

-- a variable for one of the settings
abbrev with_env : Assoc Str
with_env = (text "SEQR_MAILBOX_URL", text "https://c") ∷ []

-- the file's backend is read
toml_backend : (resolve (text "pem") (some (text "backend = p2p")) none no_env).backend ≡ p2p
unfolding resolve read_lines read_line lines_of value_of trim_quotes parse_backend trim white_start
    white_end strip_prefix split str_eq lookup
toml_backend = refl
