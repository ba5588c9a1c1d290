-- ===== src/Node.antt =====
-- internal/node: the authentication of calls.
pub mod Gate
pub mod Identity
pub mod Config
pub mod Guard
pub mod Limiter
