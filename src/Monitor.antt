-- ===== src/Monitor.antt =====
-- The package internal/monitor: the alert state machine and the delivery of its events.
pub mod Types
pub mod Evaluate
pub mod Deliver
pub mod Trace
pub mod Refinement
