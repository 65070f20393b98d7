-- ===== src/Auth.antt =====
-- reana_server/auth/: the identity layer.
pub mod Errors
pub mod Exec
pub mod Jwks
pub mod Sessions
pub mod Roles
pub mod Provision
pub mod Request
pub mod Login
