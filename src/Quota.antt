-- ===== src/Quota.antt =====
-- The package internal/quota: the usage report of one account, what is observed of an account, and
-- the weighted total of the pool.
pub mod Types
pub mod Wham
pub mod Observe
pub mod Aggregate
