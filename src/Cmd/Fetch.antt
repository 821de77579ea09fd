-- ===== src/Cmd/Fetch.antt =====
-- cmd/tlsrpt-digest/fetch.go: the fetch command. The mail server behind newMailFetcher, the
-- notifier's Flush (by the trace up to it) and the Go library are parameters. There is a notifier.
-- A mail in memory is `none` where the program's slice is nil.
pub mod Validity
pub mod Download
pub mod Collect
pub mod Command
pub mod Reads
pub mod Safety
pub mod Order
pub mod Unseen
pub mod Marking
pub mod Present
pub mod Saved
pub mod Metas
pub mod Final
pub mod Complete
use tlsrpt_digest.Base.{
  ℕ, leb, ltb, ◌==◌, Bool, true, false, not, ◌&&◌, ◌||◌, Option, none, some, ◌⊎◌, inl, inr, List,
  [], ◌∷◌, ◌++◌, length, take, String, str_eq, if◌then◌else◌,
}
use Prim.Native.String.{len, find}
use tlsrpt_digest.Base.Int.{ℤ}
use tlsrpt_digest.Base.Time.{Time, year_month}
use tlsrpt_digest.Tlsrpt.{Report, has_failure}
use tlsrpt_digest.Tlsrpt.Parsing.{report, rejected}
use tlsrpt_digest.Mailparse.{
  Attachment, Part, Attachments, attachments, mail_error, extract_attachments,
}
use tlsrpt_digest.Store.Types.{StoreError, EmailMeta, EmailPath, ReportInput, RecoveryState, Disk}
use tlsrpt_digest.Store.Io.{M, look, look_some}
use tlsrpt_digest.Store.Sentinel.{
  FileStore, load_recovery_required, load_uid_validity, save_uid_validity, save_recovery_required,
}
use tlsrpt_digest.Store.Emails.{read_eml, files, save_email, save_email_metas}
use tlsrpt_digest.Store.Reports.{save_reports}
use tlsrpt_digest.Notify.Kinds.{
  SystemErrorKind, store_corruption, recovery_required, imap_credentials_missing,
  imap_operation_failed, uid_validity_changed, imap_auth_failed, imap_connect_failed, size_mismatch,
  parse_failure, mailbox_read_only,
}
use tlsrpt_digest.Config.{Config}
use tlsrpt_digest.Cmd.Recover.{ExitCode, exit_ok, exit_error}
use tlsrpt_digest.Cmd.Duration.{cutoff}
use tlsrpt_digest.Cmd.Gc.{Credentials, are_missing}
use tlsrpt_digest.Cmd.Session.{
  Event, connected, asked_meta, asked_download, asked_seen, reported, flushed, stored_metas,
  stored_reports, logged_dry_run, Session, Step, goes, Run, return, stop, call, emit, ◌>>=◌, ◌>>◌,
  closing,
}
use tlsrpt_digest.Cmd.Attachments.{
  GoLibrary, AttachmentResult, not_tlsrpt, parsed, parse_tlsrpt_attachment, log_alerts, log_warn,
}

pub record MessageMeta : Type 0 where
  pub uid : ℕ
  pub size : ℕ
  pub date : Time
  pub seen : Bool
  pub message_id : String

pub record FetchMetaResult : Type 0 where
  pub messages : List MessageMeta
  pub uid_validity : ℕ

pub data MarkSeenError : Type 0 where
  read_only_mailbox other_error : MarkSeenError

-- newMailFetcher and its fetcher: the text of a connection error, what FetchMeta and Download give,
-- and the error of MarkSeen, if any
pub record MailServer : Type 0 where
  pub connect : Option String
  pub fetch_meta : Time → Option FetchMetaResult
  pub download : List ℕ → Option (ℕ → Option (List ℕ))
  pub mark_seen : List ℕ → Option MarkSeenError

-- `fetchRunner`, whose localEmailSize and loadLocalEML are those of newFetchRunner, with the notifier
pub record FetchRunner : Type 0 where
  pub server : MailServer
  pub credentials : Credentials
  pub now : Time
  pub flush : List Event → Bool
  pub lib : GoLibrary

-- the values of --dry-run and --since, in days
pub record FetchOptions : Type 0 where
  pub dry_run : Bool
  pub since : Option ℤ

-- `BootContext`, as far as the command reads it
pub record BootContext : Type 0 where
  pub store : FileStore
  pub config : Config
  pub options : FetchOptions

pub record FetchMsgState : Type 0 where
  pub meta : MessageMeta
  pub eml_existed_before : Bool
  pub raw_eml : Option (List ℕ)

unfoldable pub flush : FetchRunner → Run Bool
flush r s = let ok = r.flush s.trace in (goes ok, record s { trace = flushed ok ∷ s.trace })

unfoldable pub notify_fetch_system_error : FetchRunner → SystemErrorKind → Run Unit
unfolding emit flush return ◌>>=◌
notify_fetch_system_error r kind = do emit (reported kind); ok ← flush r; return tt

-- notify, then return the error
abbrev pub fail_with : {A : Type 0} → FetchRunner → SystemErrorKind → Run A
fail_with r kind = do notify_fetch_system_error r kind; stop exit_error

unfoldable pub classify_imap_client_error : String → SystemErrorKind
classify_imap_client_error text =
    if leb (find text "login") (len text) then imap_auth_failed else imap_connect_failed

unfoldable pub fetch_since : FetchOptions → Config → Time → Time
fetch_since o cfg now = elim o.since [
  | some days ↦ cutoff days now
  | none ↦ cutoff cfg.imap.fetch_days now
]

abbrev pub fetch_email_path : ℕ → ℕ → Time → EmailPath
fetch_email_path uid uid_validity date = record {
  uid_validity = uid_validity;
  month = year_month date;
  uid = uid;
}

abbrev pub is_some : Option (List ℕ) → Bool
is_some none = false
is_some (some raw) = true

abbrev pub size_of : Option (List ℕ) → Option ℕ
size_of none = none
size_of (some raw) = some (length raw)

-- `localEmailSize`
unfoldable pub local_email_size : ℕ → ℕ → Time → M (Option ℕ)
local_email_size uid v date =
    look (λ d. size_of (read_eml (fetch_email_path uid v date) (files d.emails)))

-- `loadLocalEML`: an absent file is an error
unfoldable pub load_local_eml : ℕ → ℕ → Time → M (List ℕ)
load_local_eml uid v date = look_some (λ d. read_eml (fetch_email_path uid v date) (files d.emails))

abbrev pub has_eml : FetchMsgState → Bool
has_eml s = s.eml_existed_before || is_some s.raw_eml
