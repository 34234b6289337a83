-- ===== src/Samples.antt =====
-- Runs of the definitions, and each theorem at a concrete input.
mod Queries
mod Policies
mod Commands
mod Gates
mod Sessions
mod Capabilities
mod Detached
mod Stores
mod Hosts
mod Reads
mod Forwards
mod Agents
