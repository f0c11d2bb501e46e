-- ===== src/Api.antt =====
-- internal/api: the handlers of the control plane, over the store and the hub.
pub mod Server
pub mod Delivery
pub mod Sending
pub mod Handlers
pub mod Agent
pub mod Isolation
pub mod Reports
pub mod Creation
pub mod Offline
