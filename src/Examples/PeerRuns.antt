-- ===== src/Examples/PeerRuns.antt =====
-- Two parties: their keys, a frame from one to the other, a token, and the theorems on them.
use seqr.Prelude.{
  Bytes, Str, text, true, false, [], ◌∷◌, none, some, ◌≡◌, refl, replicate, arith, ◌<◌,
  All-replicate, str_eq, ◌⊎◌,
}
use seqr.Prelude.Result.{ok, err, ◌>>=◌}
use seqr.Prelude.Unicode.{is_utf8}
use seqr.Core.Conversation.{pairwise_key, seal_direct_key, open_direct_key, direct_key_for_epoch}
use seqr.Core.Conversation.Keys.{KeyDraws, open_direct_key-seal_direct_key}
use seqr.Core.Error.{CoreError}
use seqr.Core.Identity.{profile_for, self_as_friend, friend_from, encode_token, decode_token}
use seqr.Core.Identity.Token.{decode_token-profile_for}
use seqr.Core.Message.{build_frame, open_frame}
use seqr.Core.Message.RoundTrip.{open_frame-build_frame, signing_bytes-injective}
use seqr.Core.Vault.{
  VaultData, Friend, default_settings, add_message, group_by_id, identity, decode32,
  friend_by_signing, has_incoming,
}
use seqr.Core.VaultFile.{Disk}
use seqr.Crypto.Error.{SymmetricKey}
use seqr.Crypto.Keys.{public, Identity, from_secret_bytes}
use seqr.Crypto.Primitives.{IsBytes}
use seqr.Crypto.Agreement.{hkdf_info, derive_pairwise, derive_pairwise_bytes}
use seqr.Examples.Toy.{toy, toy_hex, toy_scheme, toy_serde}
use seqr.Net.{Unlocked, message, nothing, keep, on_message, conv_key_for}
use seqr.Net.Incoming.{
  NotOpened, stored, known, on_message-cases, on_message-again, on_message-build_frame,
}
use seqr.Protocol.{MessageFrame, ProfileBlob, version}

abbrev pub alice : Identity
alice = record { agreement_secret = replicate 32 7; signing_key = replicate 32 9 }

abbrev pub bob : Identity
bob = record { agreement_secret = replicate 32 3; signing_key = replicate 32 4 }

abbrev pub card : Str → Identity → Friend
card name me = record {
  display_name = name;
  agreement_public = toy.hex_encode (toy.x25519_public me.agreement_secret);
  signing_public = toy.hex_encode (toy.ed25519_public me.signing_key);
  node_addr = [];
}

abbrev pub alice_card : Friend
alice_card = card (text "Alice") alice

abbrev pub bob_card : Friend
bob_card = card (text "Bob") bob

abbrev pub nonce : Bytes
nonce = replicate 12 6

abbrev pub new_key : SymmetricKey
new_key = replicate 32 8

pub nonce-IsBytes : IsBytes nonce
nonce-IsBytes = All-replicate (λ b. b < 256) 12 6 (omega arith)

new_key-IsBytes : IsBytes new_key
new_key-IsBytes = All-replicate (λ b. b < 256) 32 8 (omega arith)

pub key_draws : KeyDraws ⦃p = toy⦄ nonce new_key
key_draws = record {
  nonce_bytes = nonce-IsBytes;
  nonce_size = refl;
  key_bytes = new_key-IsBytes;
  key_size = refl;
}

open_direct_key-seal_direct_key_example :
    (seal_direct_key ⦃p = toy⦄ nonce alice bob_card (text "c") 1 new_key
      >>= open_direct_key ⦃p = toy⦄ bob alice_card (text "c") 1)
    ≡ ok new_key
open_direct_key-seal_direct_key_example =
    open_direct_key-seal_direct_key ⦃p = toy⦄ toy_hex toy_scheme alice bob alice_card bob_card nonce
      (text "c") 1 new_key refl refl key_draws

-- Bob's account, with Alice as a friend
abbrev pub bob_data : VaultData
bob_data = record {
  display_name = text "Bob";
  agreement_secret = toy.hex_encode bob.agreement_secret;
  signing_secret = toy.hex_encode bob.signing_key;
  node_addr = [];
  friends = alice_card ∷ [];
  messages = [];
  groups = [];
  direct_keys = [];
  pending_requests = [];
  settings = default_settings;
}

abbrev frame : MessageFrame
frame = build_frame ⦃p = toy⦄ nonce alice (text "c") 0 new_key 5 (text "hi")

open_frame-build_frame_example : open_frame ⦃p = toy⦄ new_key frame ≡ ok (text "hi")
unfolding is_utf8
open_frame-build_frame_example =
    open_frame-build_frame ⦃p = toy⦄ toy_hex toy_scheme nonce alice (text "c") 0 new_key 5
      (text "hi") nonce-IsBytes refl (omega arith) refl

signing_bytes-injective_example :
    (frame.conversation_id ≡ frame.conversation_id)
    × (frame.epoch ≡ frame.epoch)
    × (frame.sender ≡ frame.sender)
    × (frame.seq ≡ frame.seq)
    × (frame.ciphertext ≡ frame.ciphertext)
signing_bytes-injective_example =
    signing_bytes-injective ⦃p = toy⦄ toy_hex toy_scheme new_key new_key frame frame (text "hi")
      (text "hi") open_frame-build_frame_example open_frame-build_frame_example refl

abbrev pub bob_profile : ProfileBlob
bob_profile = record {
  v = version;
  display_name = text "Bob";
  agreement_public = bob_card.agreement_public;
  signing_public = bob_card.signing_public;
  node_addr = [];
}

pub bob-identity : identity ⦃p = toy⦄ bob_data ≡ ok bob
unfolding identity decode32 from_secret_bytes
bob-identity = refl

bob-profile_for : profile_for ⦃p = toy⦄ bob_data ≡ ok bob_profile
unfolding profile_for identity decode32 from_secret_bytes public
bob-profile_for = refl

decode_token-profile_for_example :
    ((encode_token ⦃p = toy⦄ ⦃s = toy_serde⦄ bob_profile >>= decode_token ⦃p = toy⦄ ⦃s = toy_serde⦄)
      ≡ ok bob_profile)
    × (self_as_friend ⦃p = toy⦄ bob_data ≡ ok (friend_from bob_profile))
decode_token-profile_for_example =
    decode_token-profile_for ⦃p = toy⦄ ⦃s = toy_serde⦄ toy_hex toy_scheme bob_data bob_profile
      bob-profile_for (refl, omega arith)

-- what the two share at epoch 0
abbrev pub shared : SymmetricKey
shared =
    toy.hkdf_sha256_32
      (toy.diffie_hellman alice.agreement_secret (toy.x25519_public bob.agreement_secret)) hkdf_info

pub alice-shared : pairwise_key ⦃p = toy⦄ alice bob_card ≡ ok shared
unfolding pairwise_key derive_pairwise_bytes derive_pairwise
alice-shared = refl

abbrev first_frame : MessageFrame
first_frame = build_frame ⦃p = toy⦄ nonce alice (text "c") 0 shared 5 (text "hi")

abbrev pub disk : Disk
disk = record { data_dir = false; vault = none; refuses = none }

abbrev pub account : Unlocked
account = record { vault_key = new_key; data' = bob_data }

on_message-cases_example :
    ((known bob_data first_frame ≡ true)
      × (on_message ⦃p = toy⦄ ⦃s = toy_serde⦄ 99 nonce first_frame disk account
          ≡ (disk, account, ok nothing)))
    ⊎ (((e : CoreError) × (known bob_data first_frame ≡ false)
          × NotOpened ⦃p = toy⦄ ⦃s = toy_serde⦄ bob_data first_frame e
          × (on_message ⦃p = toy⦄ ⦃s = toy_serde⦄ 99 nonce first_frame disk account
              ≡ (disk, account, err e)))
        ⊎ ((key : SymmetricKey) × (body : Str) × (known bob_data first_frame ≡ false)
            × (conv_key_for ⦃p = toy⦄ bob_data first_frame.conversation_id first_frame.sender
                  first_frame.epoch
                ≡ ok key)
            × (open_frame ⦃p = toy⦄ key first_frame ≡ ok body)
            × (on_message ⦃p = toy⦄ ⦃s = toy_serde⦄ 99 nonce first_frame disk account
                ≡ keep ⦃p = toy⦄ ⦃s = toy_serde⦄ nonce
                    (add_message (stored 99 first_frame body) bob_data)
                    (message (stored 99 first_frame body))
                    disk
                    account)))
on_message-cases_example =
    on_message-cases ⦃p = toy⦄ ⦃s = toy_serde⦄ 99 nonce first_frame disk account

pub alice-found :
    friend_by_signing bob_data (toy.hex_encode (toy.ed25519_public alice.signing_key))
    ≡ some alice_card
unfolding friend_by_signing str_eq
alice-found = refl

first_frame-new : known bob_data first_frame ≡ false
unfolding has_incoming
first_frame-new = refl

no_group : group_by_id bob_data (text "c") ≡ none
unfolding group_by_id
no_group = refl

on_message-build_frame_example :
    on_message ⦃p = toy⦄ ⦃s = toy_serde⦄ 99 nonce first_frame disk account
    ≡ keep ⦃p = toy⦄ ⦃s = toy_serde⦄ nonce
        (add_message (stored 99 first_frame (text "hi")) bob_data)
        (message (stored 99 first_frame (text "hi")))
        disk
        account
unfolding is_utf8
on_message-build_frame_example =
    on_message-build_frame ⦃p = toy⦄ ⦃s = toy_serde⦄ toy_hex toy_scheme alice bob alice_card
      bob_card shared (text "c") 5 (text "hi") 99 nonce nonce disk account refl refl alice-shared
      nonce-IsBytes refl (omega arith) refl bob-identity no_group alice-found first_frame-new

first_frame-key :
    conv_key_for ⦃p = toy⦄ bob_data first_frame.conversation_id first_frame.sender first_frame.epoch
    ≡ ok shared
unfolding conv_key_for identity decode32 from_secret_bytes group_by_id friend_by_signing str_eq
    build_frame public direct_key_for_epoch pairwise_key derive_pairwise_bytes derive_pairwise
first_frame-key = refl

first_frame-opens : open_frame ⦃p = toy⦄ shared first_frame ≡ ok (text "hi")
unfolding is_utf8
first_frame-opens =
    open_frame-build_frame ⦃p = toy⦄ toy_hex toy_scheme nonce alice (text "c") 0 shared 5
      (text "hi") nonce-IsBytes refl (omega arith) refl

on_message-again_example :
    on_message ⦃p = toy⦄ ⦃s = toy_serde⦄ 100 nonce first_frame disk
      (on_message ⦃p = toy⦄ ⦃s = toy_serde⦄ 99 nonce first_frame disk account).1
    ≡ (disk, (on_message ⦃p = toy⦄ ⦃s = toy_serde⦄ 99 nonce first_frame disk account).1, ok nothing)
on_message-again_example =
    on_message-again ⦃p = toy⦄ ⦃s = toy_serde⦄ 99 100 nonce nonce first_frame disk disk account
      shared (text "hi") first_frame-key first_frame-opens
