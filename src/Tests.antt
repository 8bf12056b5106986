-- ===== src/Tests.antt =====
-- Runs on concrete inputs, and the theorems at concrete data.
pub mod Machine
mod Quotas
mod Alerts
mod Runs
mod Requests
mod Stored
mod Calls
mod Plans
mod Settings
mod Mails
mod Latches
mod Entries
