-- ===== src/Management.antt =====
-- internal/management/handler.go and ui.go: the requests that the plugin answers.
pub mod Types
pub mod Channels
pub mod Deliver
pub mod Check
pub mod Status
pub mod Secrets
pub mod Settings
pub mod Handle
