-- ===== src/Notify/Kinds.antt =====
-- internal/notify/types.go: what is notified. Counts are int64, and the text of a policy type is
-- kept as it is.
use tlsrpt_digest.Base.{ℕ, String, List}
use tlsrpt_digest.Base.Int.{ℤ}
use tlsrpt_digest.Tlsrpt.{DateRange}

pub data SystemErrorKind : Type 0 where
  lock_held store_identity_mismatch store_permission store_corruption : SystemErrorKind
  imap_credentials_missing imap_connect_failed imap_auth_failed : SystemErrorKind
  imap_operation_failed uid_validity_changed recovery_required : SystemErrorKind
  reset_incomplete notification_flush_failed : SystemErrorKind

pub data WarningKind : Type 0 where
  size_mismatch parse_failure mailbox_read_only : WarningKind

pub record Warning : Type 0 where
  pub kind : WarningKind
  pub uid : ℕ
  pub uid_validity : ℕ
  pub message_id : String

-- the `FailureDetail` of this package: its public fields
pub record PublicDetail : Type 0 where
  pub result_type : String
  pub failed_session_count : ℤ
  pub receiving_mx_hostname : String
  pub failure_reason_code : String

-- `Alert`, without the two totals, which LogAlert computes
pub record Alert : Type 0 where
  pub organization_name : String
  pub policy_type : String
  pub failure_count : ℤ
  pub date_range : DateRange
  pub report_id : String
  pub failure_details : List PublicDetail
