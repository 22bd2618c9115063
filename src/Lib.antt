-- ===== src/Lib.antt =====
-- seqr: an end-to-end encrypted messenger, in three crates and a desktop application.
--
-- The parts and how they interact. Peers hold an identity (two secret keys) and know one another's
-- public keys. A message is sealed with the key of its conversation and signed by its sender
-- (crates/seqr-crypto, crates/seqr-protocol, core/message.rs); it goes to the peer directly or is
-- parked in the mailbox (services/mailbox), whose owner pulls it with a signed request and
-- acknowledges it. The desktop (apps/desktop/src-tauri/src) keeps its account in a vault, a file
-- sealed with a key derived from the password, and changes it as packets come in.
--
-- The files:
--   Prelude        shared names; lists, texts as bytes, decimal numbers, sorting, maps, results
--   Crypto         crates/seqr-crypto/src: one child for each source file
--   Protocol       crates/seqr-protocol/src: the types, and the bytes that signatures cover
--   Mailbox        services/mailbox/src: Config is config.rs, Store is store.rs, Server is lib.rs
--   Core           apps/desktop/src-tauri/src/core: Error is mod.rs; Vault and VaultFile are the two
--                  halves of vault.rs; Packet, Conversation, Group, Message, Identity, Transport are the
--                  files of these names; Attachment is attachment.rs, with Files for the file system,
--                  Rest for what is on disk and Reassembly for the chunks that come in; Config is config.rs; MailboxClient
--                  is mailbox.rs; Serde is the interface to serde_json
--   Net            apps/desktop/src-tauri/src/net.rs and core/session.rs: Net, Incoming and Invites have
--                  the packets for the account, Attachments those for its files and the file stream,
--                  Outgoing the delivery, Poll the loop over the mailbox
--   Commands       apps/desktop/src-tauri/src/commands.rs: the commands of the user interface
--   Matrix         apps/desktop/src-tauri/src/matrix: SessionFile is client.rs; Session has the state of mod.rs and
--                  the commands of commands.rs on the account; Timeline is matrix_room_messages of the same
--                  file; Verification is verification.rs
--   Examples       concrete parameters, runs, and each theorem at a concrete input
--
-- How code becomes definitions. A definition has its function's name: `push` of Mailbox/Store is
-- Store::push. A `&mut self` is an argument and a component of the result. Result is Rust's, with
-- its errors. Texts are lists of bytes, and numbers are natural numbers, with the wrap-around of a
-- u64 written out where a sum is computed. The clock and random bytes are arguments. A directory of
-- the mailbox is a map from file names to texts, in the order of creation; the names that cannot be read are listed. The vault's disk has its
-- data directory, its file, and takes writes or refuses them all; the temporary file and its rename
-- are one step. The files of attachments are a map from paths to bytes, and a handle on a file is its path. Tasks that
-- the code runs side by side are sequences of steps here, in any order.
--
-- Parameters. `Primitives` is what the code takes from hex, x25519-dalek, ed25519-dalek, hkdf, sha2,
-- chacha20poly1305 and argon2; `HexLaws` and `SchemeLaws` say what is documented of them and used.
-- That the schemes are hard to break is not stated, so nothing here says that a stranger cannot
-- forge or read. `Serde` is the JSON of the vault, the packets and the profiles; where a theorem
-- needs that a value is read back, this is a hypothesis on the value. `SendStream` is a connection
-- of iroh that breaks after some bytes, `Sdk` and `Codec` what the Matrix client takes from its SDK, from Base64 and
-- from JSON, and `Server` an HTTP client with a server behind it; Net/Poll/Drained puts the
-- mailbox of this development there. Base64, the reach of a peer and the start of the transport are arguments.
--
-- Bounds. The identifiers of the mailbox sort in the order of arrival while the clock fits 13 digits
-- and the counter 10; the theorems on the order have these as hypotheses. Fuel is the
-- length of a text (the trimming of a suffix or of white space) or of a file at rest (its records), each step of
-- which takes at least one byte; the last step may take none, so the loops over records have one step more. Loops over
-- chunks count down from their number. A chunk's index and a frame's length are u32, and a frame has at most 4 MiB.
--
-- Not modelled: the parsing of HTTP, the routing and the start of the mailbox; the debug log may fail
-- to be written in the code and never does here; the endpoints of
-- iroh, the events and debug lines for the user interface, and the user interface; of the Matrix client, the
-- SDK itself (`Sdk`, a parameter), the handlers of the sync loop in sync.rs, and the commands on rooms, members, media,
-- devices, recovery and pushers, which pass on to the SDK what they are given.
pub mod Prelude
pub mod Crypto
pub mod Protocol
pub mod Mailbox
pub mod Core
pub mod Net
pub mod Commands
pub mod Matrix
pub mod Examples
