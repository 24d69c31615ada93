-- ===== src/Ipc.antt =====
-- src/ipc/mod.rs: messages, their wire form, and what the transports share.
pub mod Message
pub mod Bincode
pub mod Sample
