-- ===== src/Core.antt =====
-- apps/desktop/src-tauri/src/core: the desktop's own logic.
pub mod Error
pub mod Vault
pub mod VaultFile
pub mod Packet
pub mod Serde
pub mod Conversation
pub mod Group
pub mod Message
pub mod Identity
pub mod Transport
pub mod MailboxClient
pub mod Attachment
pub mod Config
