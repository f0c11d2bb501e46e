-- ===== src/Hub.antt =====
-- internal/hub/hub.go: the hub that holds the agents' connections.
pub mod Connections
pub mod Loop
pub mod Steps
pub mod Fencing
pub mod Races
