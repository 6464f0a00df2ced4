-- ===== src/Bridge.antt =====
-- internal/bridge: the host service, its journal and its authenticated HTTP surface.
pub mod Bolt
pub mod Auth
pub mod Nonces
pub mod Operation
pub mod Backups
pub mod Journal
pub mod Recovery
pub mod Server
