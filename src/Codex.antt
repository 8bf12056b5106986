-- ===== src/Codex.antt =====
-- internal/codexquota/service.go: which accounts are asked, the request with its retries, and what one
-- check of the pool observes.
pub mod Types
pub mod Credential
pub mod Fetch
pub mod Check
