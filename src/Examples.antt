-- ===== src/Examples.antt =====
-- Runs of the definitions, and each theorem applied at a concrete input.
pub mod Toy
pub mod MailboxRuns
pub mod VaultRuns
pub mod PeerRuns
pub mod InviteRuns
pub mod CommandRuns
pub mod AttachmentRuns
pub mod NodeRuns
pub mod MatrixRuns
