-- ===== src/Notify.antt =====
-- internal/notify: the Slack notifications.
pub mod Retry
pub mod Kinds
pub mod Summary
pub mod Text
pub mod Message
pub mod Handler
