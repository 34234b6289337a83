-- ===== src/Gate.antt =====
-- internal/gate/service.go: the boundary between policy, approval, execution and audit.
pub mod World
pub mod Commands
pub mod Lawful
pub mod Safety
pub mod Endings
pub mod Approving
pub mod Audit
pub mod Sessions
pub mod Forwarding
pub mod Detaching
