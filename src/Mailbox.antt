-- ===== src/Mailbox.antt =====
-- services/mailbox: the store-and-forward service, its store of files and its HTTP handlers.
pub mod Config
pub mod Store
pub mod Server
