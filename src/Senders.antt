-- ===== src/Senders.antt =====
-- internal/infrastructure/notification: how a message of the outbox leaves the program.
pub mod Router
pub mod Smtp
pub mod Headers
pub mod Transcript
pub mod Letters
