-- ===== src/Cmd.antt =====
-- cmd/tlsrpt-digest: the subcommands.
pub mod Recover
pub mod Duration
pub mod Gc
pub mod Session
pub mod Attachments
pub mod Fetch
pub mod Reprocess
pub mod Summary
