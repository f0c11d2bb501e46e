-- ===== src/Alerting.antt =====
-- internal/alerting: what an agent's samples and its connection make the server report.
pub mod Settings
pub mod Deliveries
pub mod Evaluator
pub mod Spacing
pub mod Recovery
pub mod Connection
pub mod Dispatcher
pub mod Fifo
pub mod Accounting
pub mod Worker
