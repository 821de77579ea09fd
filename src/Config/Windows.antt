-- ===== src/Config/Windows.antt =====
-- The periods that validate of internal/config/validate.go lets pass, and the days they reach back to.
use tlsrpt_digest.Base.{◌≡◌, ◌⊎◌}
use tlsrpt_digest.Base.Int.{pos, ◌≤ℤ◌}
use tlsrpt_digest.Base.Time.{Time}
use tlsrpt_digest.Config.{Config}

-- what an accepted configuration has
record Accepted (cfg : Config) : Type 0 where
  port : (pos 1 ≤ℤ cfg.imap.port) × (cfg.imap.port ≤ℤ pos 65535)
  fetch_days : pos 1 ≤ℤ cfg.imap.fetch_days
  window_days : pos 1 ≤ℤ cfg.window_days
  retention_days : pos 1 ≤ℤ cfg.retention_days
  max_email_age_days : pos 1 ≤ℤ cfg.max_email_age_days
  max_message_bytes : pos 0 ≤ℤ cfg.imap.max_message_bytes
  imap_retention :
      (cfg.imap.retention_days ≡ pos 0)
      ⊎ ((cfg.imap.fetch_days ≤ℤ cfg.imap.retention_days)
          × (cfg.window_days ≤ℤ cfg.imap.retention_days))
