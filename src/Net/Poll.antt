-- ===== src/Net/Poll.antt =====
-- apps/desktop/src-tauri/src/net.rs: a packet that comes in, from a peer or from the mailbox, and the loop that polls the mailbox.
pub mod Drained
use seqr.Prelude.{
  ◌+◌, ℕ, Bytes, Str, Bool, true, false, List, [], ◌∷◌, ◌++◌, Option, none, some, if◌then◌else◌,
  map,
}
use seqr.Prelude.Result.{Result, ok, err, to_option, ◌>>=◌}
use seqr.Core.Error.{CoreResult, bad_profile}
use seqr.Core.MailboxClient.{Server, pull, ack}
use seqr.Core.Packet.{
  Packet, message, group_invite, key_update, friend_request, attachment_meta, attachment_chunk,
}
use seqr.Core.Serde.{Serde}
use seqr.Core.Vault.{identity}
use seqr.Crypto.Keys.{Identity, from_secret_bytes, secret_bytes}
use seqr.Crypto.Primitives.{Primitives}
use seqr.Net.{
  Session, Handler, Inbound, with_unlocked, on_message, on_friend_request, on_key_update,
  handle_invite,
}
use seqr.Net.Attachments.{Node, Moment, handle_attachment_meta, handle_attachment_chunk}
use seqr.Protocol.Requests.{PulledMessage}

-- `SessionState::is_unlocked`
unfoldable pub is_unlocked : Node → Bool
is_unlocked node = elim node.session.unlocked [ none ↦ false | some _ ↦ true ]

-- a handler of the account alone
abbrev pub at_account : Handler → Node → Node × CoreResult Inbound
at_account handler node =
    let (session', r) = with_unlocked node.session handler in
    (record node { session = session' }, r)

module _ ⦃p : Primitives⦄ where
  unfoldable pub current_identity : Node → Option Identity
  current_identity node = elim node.session.unlocked [
    | none ↦ none
    | some u ↦ elim (identity u.data') [
      | err e ↦ none
      | ok me ↦ (let (a, s) = secret_bytes me in to_option (from_secret_bytes a s))
    ]
  ]

  module _ ⦃s : Serde⦄ where
    -- the packet's handler
    unfoldable pub dispatch : Moment → Packet → Node → Node × CoreResult Inbound
    dispatch at (message frame) node = at_account (on_message at.now at.nonce frame) node
    dispatch at (group_invite invite) node = at_account (handle_invite at.nonce invite) node
    dispatch at (key_update ku) node = at_account (on_key_update at.nonce ku) node
    dispatch at (friend_request req) node = at_account (on_friend_request at.nonce req) node
    dispatch at (attachment_meta meta) node = handle_attachment_meta meta node
    dispatch at (attachment_chunk chunk) node = handle_attachment_chunk at chunk node

    unfoldable pub process_incoming : Moment → Bytes → Node → Node × CoreResult Inbound
    unfolding dispatch
    process_incoming at bytes node = elim (s.packet_from_json bytes) [
      | err e ↦ (node, err (bad_profile e))
      | ok packet ↦ dispatch at packet node
    ]

    -- the messages of one pull, each at its moment, and what they produced
    unfoldable pub process_all :
        (ℕ → Moment) → ℕ → List PulledMessage → Node → Node × List (CoreResult Inbound)
    unfolding process_incoming
    process_all moments i [] node = (node, [])
    process_all moments i (m ∷ ms) node =
        let (node', r) = process_incoming (moments i) m.payload node in
        let (node'', rs) = process_all moments (i + 1) ms node' in (node'', r ∷ rs)

    -- what one turn of `poll_mailbox_loop` leaves: whether the loop goes on, the server, the account, and what
    -- the pulled messages produced
    pub record Turn (S : Type 0) : Type 0 where
      pub goes_on : Bool
      pub server' : S
      pub node' : Node
      pub produced : List (CoreResult Inbound)

    unfoldable pub poll_turn : {S : Type 0} → Server S → ℕ → ℕ → (ℕ → Moment) → S → Node → Turn S
    unfolding current_identity process_all is_unlocked
    poll_turn server ts ts_ack moments st node =
        let stopped : Turn _ = record {
          goes_on = false;
          server' = st;
          node' = node;
          produced = [];
        } in
        if is_unlocked node
        then elim (current_identity node) [
          | none ↦ stopped
          | some me ↦
              let (st', pulled) = pull server ts me st in
              elim pulled [
                | err e ↦ record { goes_on = true; server' = st'; node' = node; produced = [] }
                | ok messages ↦
                    let (node', produced) = process_all moments 0 messages node in
                    let (st'', _) = ack server ts_ack me (map (λ m. m.id) messages) st' in
                    record { goes_on = true; server' = st''; node' = node'; produced = produced }
              ]
        ]
        else stopped
