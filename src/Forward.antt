-- ===== src/Forward.antt =====
-- internal/forward: port forwards of a target, and the host names that stand for them.
pub mod Hosts
pub mod Manager
pub mod Aliases
