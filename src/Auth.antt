-- ===== src/Auth.antt =====
-- internal/auth: resource paths and the authorization of operations on them.
pub mod Keypath
pub mod Authz
