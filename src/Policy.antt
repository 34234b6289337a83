-- ===== src/Policy.antt =====
-- internal/policy: what classifies a submitted command.
pub mod Values
pub mod Shell
pub mod Network
pub mod Views
pub mod Engine
pub mod Paths
pub mod Diagnostic
pub mod Mysql
pub mod Timestamps
pub mod Journal
pub mod Reads
pub mod Containers
pub mod Files
pub mod Grep
pub mod Validators
