-- ===== src/Protocol.antt =====
-- internal/bridgeprotocol: what the control plane and the Bridge say to one another.
pub mod Errors
pub mod Body
pub mod Bundle
pub mod External
pub mod Target
pub mod Governance
pub mod Canary
pub mod Manifest
