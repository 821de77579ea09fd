-- ===== src/Store.antt =====
-- internal/store: the file store. Its modules are named for its files and for what they prove.
pub mod Types
pub mod Io
pub mod Sentinel
pub mod Recovery
pub mod Open
pub mod Triple
pub mod Reports
pub mod Emails
pub mod Untouched
pub mod Partial
