-- ===== src/Shm.antt =====
-- The shared-memory transports: src/ipc/shared_memory.rs, src/ipc/shared_memory_blocking.rs.
mod Tests
pub mod Ring
pub mod Blocking
pub mod Direct
pub mod Transport
pub mod Connection
