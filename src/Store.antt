-- ===== src/Store.antt =====
-- internal/state/store.go: the state file. `Save` writes a temporary file beside it and renames that
-- over it; `Load` reads it back.
pub mod Save
pub mod Load
pub mod Atomic
pub mod Success
