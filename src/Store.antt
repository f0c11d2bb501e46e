-- ===== src/Store.antt =====
-- internal/store: the control-plane tables of the server and the operations on them.
pub mod Tables
pub mod Watermark
pub mod Streams
pub mod Aggregate
pub mod Jobs
pub mod Transitions
pub mod Backfill
pub mod Disposition
pub mod Retention
pub mod Audit
pub mod JobStatus
pub mod Deliveries
pub mod Rebinding
pub mod Contiguous
pub mod Onward
pub mod Reconcile
pub mod Calls
pub mod History
pub mod Execution
