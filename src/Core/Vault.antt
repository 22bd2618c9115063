-- ===== src/Core/Vault.antt =====
-- core/vault.rs: the contents of the vault, and the operations on them in memory. The file is in the
-- child `File`.
pub mod Roster
pub mod Messages
use seqr.Prelude.{
  ℕ, ◌+◌, Bytes, Str, Bool, true, false, not, ◌&&◌, ◌||◌, ◌==◌, List, [], ◌∷◌, ◌++◌, Option, none,
  some, if◌then◌else◌, length, find, any, retain, str_eq, text,
}
use seqr.Prelude.Result.{Result, ok, err, ◌>>=◌, map_err}
use seqr.Crypto.Keys.{Identity, from_secret_bytes}
use seqr.Crypto.Primitives.{Primitives}
use seqr.Core.Error.{CoreError, CoreResult, storage, from_crypto}

pub record Settings : Type 0 where
  pub notifications_enabled : Bool
  pub enter_sends : Bool
  pub screen_security : Bool

abbrev pub default_settings : Settings
default_settings = record {
  notifications_enabled = true;
  enter_sends = true;
  screen_security = true;
}

pub record AttachmentInfo : Type 0 where
  pub id : Str
  pub filename : Str
  pub mime : Str
  pub size : ℕ

pub record DirectKey : Type 0 where
  pub conversation_id : Str
  pub epoch : ℕ
  pub key : Str

pub record Friend : Type 0 where
  pub display_name : Str
  pub agreement_public : Str
  pub signing_public : Str
  pub node_addr : Str

pub record Group : Type 0 where
  pub id : Str
  pub name : Str
  pub members : List Friend
  pub epoch : ℕ
  pub key : Str

pub record StoredMessage : Type 0 where
  pub conversation_id : Str
  pub sender : Str
  pub body : Str
  pub ts : ℕ
  pub outgoing : Bool
  pub seq : ℕ
  pub attachment : Option AttachmentInfo

pub record VaultData : Type 0 where
  pub display_name : Str
  pub agreement_secret : Str
  pub signing_secret : Str
  pub node_addr : Str
  pub friends : List Friend
  pub messages : List StoredMessage
  pub groups : List Group
  pub direct_keys : List DirectKey
  pub pending_requests : List Friend
  pub settings : Settings

-- the test of every search by signing key
abbrev pub signs_as : Str → Friend → Bool
signs_as signing_public f = str_eq f.signing_public signing_public

unfoldable pub add_message : StoredMessage → VaultData → VaultData
add_message msg data' = record data' { messages = data'.messages ++ msg ∷ [] }

unfoldable pub history : VaultData → Str → List StoredMessage
history data' conversation_id =
    retain (λ m. str_eq m.conversation_id conversation_id) data'.messages

unfoldable pub next_seq : VaultData → Str → ℕ
next_seq data' conversation_id =
    length (retain (λ m. str_eq m.conversation_id conversation_id && m.outgoing) data'.messages)

unfoldable pub friend_by_signing : VaultData → Str → Option Friend
friend_by_signing data' signing_public = find (signs_as signing_public) data'.friends

unfoldable pub group_by_id : VaultData → Str → Option Group
group_by_id data' id = find (λ g. str_eq g.id id) data'.groups

-- a write through `group_by_id_mut`: the first group with the id is replaced
unfoldable pub set_group : Str → (Group → Group) → List Group → List Group
set_group id f [] = []
set_group id f (g ∷ gs) = if str_eq g.id id then f g ∷ gs else g ∷ set_group id f gs

-- bytes of a length, `v.try_into::<[u8; n]>()`
abbrev pub try_into : ℕ → Bytes → Option Bytes
try_into n b = if length b == n then some b else none

-- `hex::decode(s).ok().and_then(|v| v.try_into().ok())`
abbrev pub decode_array : ⦃p : Primitives⦄ → ℕ → Str → Option Bytes
decode_array ⦃p⦄ n s = elim (p.hex_decode s) [ none ↦ none | some b ↦ try_into n b ]

unfoldable pub group_key : ⦃p : Primitives⦄ → VaultData → Str → Option Bytes
group_key data' id = elim (group_by_id data' id) [ none ↦ none | some g ↦ decode_array 32 g.key ]

unfoldable pub direct_key : VaultData → Str → Option DirectKey
direct_key data' conversation_id =
    find (λ k. str_eq k.conversation_id conversation_id) data'.direct_keys

put_direct_key : Str → ℕ → Str → List DirectKey → List DirectKey
put_direct_key conversation_id epoch key_hex [] =
    record { conversation_id = conversation_id; epoch = epoch; key = key_hex } ∷ []
put_direct_key conversation_id epoch key_hex (k ∷ ks) =
    if str_eq k.conversation_id conversation_id
    then record k { epoch = epoch; key = key_hex } ∷ ks
    else k ∷ put_direct_key conversation_id epoch key_hex ks

unfoldable pub set_direct_key : Str → ℕ → Str → VaultData → VaultData
unfolding put_direct_key
set_direct_key conversation_id epoch key_hex data' = record data' {
  direct_keys = put_direct_key conversation_id epoch key_hex data'.direct_keys;
}

unfoldable pub remove_friend : Str → VaultData → VaultData
remove_friend signing_public data' = record data' {
  friends = retain (λ f. not (signs_as signing_public f)) data'.friends;
}

unfoldable pub remove_pending : Str → VaultData → VaultData
remove_pending signing_public data' = record data' {
  pending_requests = retain (λ r. not (signs_as signing_public r)) data'.pending_requests;
}

unfoldable pub add_friend : Friend → VaultData → VaultData × Bool
unfolding remove_pending
add_friend friend data' =
    let cleared = remove_pending friend.signing_public data' in
    if any (signs_as friend.signing_public) cleared.friends
    then (cleared, false)
    else (record cleared { friends = cleared.friends ++ friend ∷ [] }, true)

unfoldable pub add_pending : Friend → VaultData → VaultData × Bool
add_pending friend data' =
    if any (signs_as friend.signing_public) data'.friends
      || any (signs_as friend.signing_public) data'.pending_requests
    then (data', false)
    else (record data' { pending_requests = data'.pending_requests ++ friend ∷ [] }, true)

unfoldable pub pending_by_signing : VaultData → Str → Option Friend
pending_by_signing data' signing_public = find (signs_as signing_public) data'.pending_requests

unfoldable pub has_incoming : VaultData → Str → Str → ℕ → Bool
has_incoming data' conversation_id sender seq =
    any
      (λ m.
        not m.outgoing
        && (str_eq m.conversation_id conversation_id && (str_eq m.sender sender && (m.seq == seq))))
      data'.messages

module _ ⦃p : Primitives⦄ where
  unfoldable pub decode32 : Str → CoreResult Bytes
  decode32 hex_str = elim (p.hex_decode hex_str) [
    | none ↦ err (storage (text "bad hex"))
    | some b ↦ elim (try_into 32 b) [ none ↦ err (storage (text "bad key length")) | some k ↦ ok k ]
  ]

  unfoldable pub identity : VaultData → CoreResult Identity
  unfolding decode32
  identity data' = do
    agreement ← decode32 data'.agreement_secret
    signing ← decode32 data'.signing_secret
    from_crypto (from_secret_bytes agreement signing)
