-- ===== src/Client.antt =====
-- The client library: client/.
pub mod Options
pub mod Encrypted
pub mod Session
pub mod Kept
pub mod Mutex
pub mod Released
pub mod Election
pub mod Published
pub mod Header
