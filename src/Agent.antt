-- ===== src/Agent.antt =====
-- How an agent reaches the gate service: internal/protocol and internal/agent/server.go.
pub mod Protocol
pub mod Server
