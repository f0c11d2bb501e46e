-- ===== src/Agent.antt =====
-- internal/collector/agent_state.go: the agent's side of the control-plane protocol.
pub mod State
pub mod Recover
pub mod Admission
pub mod Tasks
pub mod Handshake
pub mod Executor
pub mod SelfUpdate
pub mod Commitment
pub mod Replacement
pub mod History
pub mod Records
pub mod Gate
pub mod Durability
