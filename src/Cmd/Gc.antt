-- ===== src/Cmd/Gc.antt =====
-- cmd/tlsrpt-digest/gc.go: the gc command. The mail server behind newMailFetcher is a parameter. A
-- run gives its exit code and its trace: what it asked of the server, notified and logged, in
-- order. There is a notifier, and what a failed notification logs is left out.
pub mod Safety
pub mod Windows
use tlsrpt_digest.Base.{
  ℕ, Bool, true, false, ◌||◌, ltb, Option, none, some, ◌⊎◌, inl, inr, List, [], ◌∷◌, ◌++◌, length,
  take, String, str_eq, if◌then◌else◌, ◌==◌,
}
use tlsrpt_digest.Base.Int.{ℤ, pos, ltb_ℤ}
use tlsrpt_digest.Base.Time.{Time, zero_time}
use tlsrpt_digest.Store.Types.{StoreError, data_corrupted, RecoveryState}
use tlsrpt_digest.Store.Io.{M, pure, try_call, ◌>>=◌}
use tlsrpt_digest.Store.Sentinel.{FileStore, load_recovery_required}
use tlsrpt_digest.Store.Reports.{delete_reports_before, count_reports_before}
use tlsrpt_digest.Store.Emails.{EmailDeletion, delete_emails_before, count_emails_before}
use tlsrpt_digest.Notify.Kinds.{
  SystemErrorKind, store_permission, store_corruption, imap_credentials_missing,
  imap_operation_failed,
}
use tlsrpt_digest.Config.{Config}
use tlsrpt_digest.Cmd.Recover.{ExitCode, exit_ok, exit_error}
use tlsrpt_digest.Cmd.Duration.{cutoff}

-- newMailFetcher: a class of error, or none; then what DeleteOlderThan and SearchOlderThan give
pub record MailServer : Type 0 where
  pub connect : Option SystemErrorKind
  pub delete_older_than : Time → Option ℕ
  pub search_older_than : Time → Option (List ℕ)

-- the options that the command reads: --dry-run, --before and --max-email-age, in days
pub record GcOptions : Type 0 where
  pub dry_run : Bool
  pub before : Option ℤ
  pub max_email_age : Option ℤ

pub record Credentials : Type 0 where
  pub username : String
  pub password : String

pub data Event : Type 0 where
  notified : SystemErrorKind → Event
  flushed connected : Event
  asked_delete asked_search : Time → Event
  logged_deleted : ℕ → ℕ → ℕ → Event
  logged_local_candidates : Time → Time → ℕ → ℕ → Event
  logged_imap_candidates : ℕ → List ℕ → Bool → Event

pub record GcRun : Type 0 where
  pub exit : ExitCode
  pub trace : List Event

unfoldable pub gc_notify_kind : StoreError → SystemErrorKind
gc_notify_kind data_corrupted = store_corruption
gc_notify_kind _ = store_permission

abbrev pub ended : ExitCode → List Event → GcRun
ended exit trace = record { exit = exit; trace = trace }

abbrev pub store_failed : StoreError → GcRun
store_failed e = ended exit_error (notified (gc_notify_kind e) ∷ [])

unfoldable pub gc_report_cutoff : GcOptions → Config → Time → Time
gc_report_cutoff o cfg now = elim o.before [
  | some days ↦ cutoff days now
  | none ↦ cutoff cfg.retention_days now
]

unfoldable pub gc_email_cutoff : GcOptions → Config → Time → Time
gc_email_cutoff o cfg now = elim o.max_email_age [
  | some days ↦ cutoff days now
  | none ↦ cutoff cfg.max_email_age_days now
]

abbrev pub are_missing : Credentials → Bool
are_missing c = str_eq c.username "" || str_eq c.password ""

-- the error of a fetcher: at the connection, or at the operation
pub data ImapResult (A : Type 0) : Type 0 where
  succeeded : A → ImapResult A
  refused : SystemErrorKind → ImapResult A

abbrev operation : {A : Type 0} → Option A → ImapResult A
operation none = refused imap_operation_failed
operation (some a) = succeeded a

unfoldable pub delete_imap_older_than : MailServer → Time → ImapResult ℕ × List Event
delete_imap_older_than server t = elim server.connect [
  | some kind ↦ (refused kind, notified kind ∷ [])
  | none ↦ elim (server.delete_older_than t) [
    | none ↦ (
      refused imap_operation_failed,
      connected ∷ asked_delete t ∷ notified imap_operation_failed ∷ [],
    )
    | some n ↦ (succeeded n, connected ∷ asked_delete t ∷ [])
  ]
]

unfoldable pub search_imap_older_than : MailServer → Time → ImapResult (List ℕ) × List Event
search_imap_older_than server t = elim server.connect [
  | some kind ↦ (refused kind, notified kind ∷ [])
  | none ↦ elim (server.search_older_than t) [
    | none ↦ (
      refused imap_operation_failed,
      connected ∷ asked_search t ∷ notified imap_operation_failed ∷ [],
    )
    | some uids ↦ (succeeded uids, connected ∷ asked_search t ∷ [])
  ]
]

abbrev pub after_imap_delete : ℕ → ℕ → ImapResult ℕ × List Event → GcRun
after_imap_delete reports emails (refused kind, trace) =
    ended exit_error (trace ++ (logged_deleted reports emails 0 ∷ []))
after_imap_delete reports emails (succeeded mails, trace) =
    ended exit_ok (trace ++ (logged_deleted reports emails mails ∷ []))

-- DeleteEmailsBefore returns an error with its count where a file or the index was not written
abbrev pub is_clean : EmailDeletion → Bool
is_clean x = elim x.failures [
  | [] ↦ (elim x.save_failed [ true ↦ false | false ↦ true ])
  | _ ↦ false
]

abbrev pub finish_delete : MailServer → Bool → Time → ℕ → ℕ → GcRun
finish_delete server imap_enabled imap_cutoff reports emails =
    if imap_enabled
    then after_imap_delete reports emails (delete_imap_older_than server imap_cutoff)
    else ended exit_ok (logged_deleted reports emails 0 ∷ [])

abbrev pub after_emails : MailServer → Bool → Time → ℕ → StoreError ⊎ EmailDeletion → M GcRun
after_emails server enabled imap_cutoff reports (inl e) = pure (store_failed e)
after_emails server enabled imap_cutoff reports (inr x) =
    if is_clean x
    then pure (finish_delete server enabled imap_cutoff reports x.deleted)
    else pure (ended exit_error (notified store_permission ∷ []))

abbrev pub after_reports : FileStore → MailServer → Bool → Time → Time → StoreError ⊎ ℕ → M GcRun
after_reports st server enabled email_cutoff imap_cutoff (inl e) = pure (store_failed e)
after_reports st server enabled email_cutoff imap_cutoff (inr reports) = do
  x ← try_call (delete_emails_before st email_cutoff)
  after_emails server enabled imap_cutoff reports x

unfoldable pub run_delete : FileStore → MailServer → Bool → Time → Time → Time → M GcRun
unfolding try_call delete_reports_before delete_emails_before delete_imap_older_than gc_notify_kind
    pure ◌>>=◌
run_delete st server enabled report_cutoff email_cutoff imap_cutoff = do
  r ← try_call (delete_reports_before st report_cutoff)
  after_reports st server enabled email_cutoff imap_cutoff r

abbrev dry_run_uid_sample_max : ℕ
dry_run_uid_sample_max = 20

-- `logGCDryRunIMAPSummary`
unfoldable pub imap_summary : List ℕ → Event
imap_summary uids =
    if ltb dry_run_uid_sample_max (length uids)
    then logged_imap_candidates (length uids) (take dry_run_uid_sample_max uids) true
    else logged_imap_candidates (length uids) uids false

abbrev pub after_search : ImapResult (List ℕ) × List Event → GcRun
after_search (refused kind, trace) = ended exit_error trace
after_search (succeeded uids, trace) = ended exit_ok (trace ++ (imap_summary uids ∷ flushed ∷ []))

abbrev pub preview : MailServer → Credentials → Bool → Time → GcRun
preview server creds enabled imap_cutoff =
    if enabled
    then if are_missing creds
      then ended exit_ok (imap_summary [] ∷ flushed ∷ [])
      else after_search (search_imap_older_than server imap_cutoff)
    else ended exit_ok (imap_summary [] ∷ flushed ∷ [])

abbrev pub with_event : Event → GcRun → GcRun
with_event e r = record r { trace = e ∷ r.trace }

abbrev pub after_email_count :
    MailServer → Credentials → Bool → Time → Time → Time → ℕ → StoreError ⊎ ℕ → M GcRun
after_email_count server creds enabled rc ec ic reports (inl e) = pure (store_failed e)
after_email_count server creds enabled rc ec ic reports (inr emails) =
    pure
      (with_event (logged_local_candidates rc ec reports emails) (preview server creds enabled ic))

abbrev pub after_report_count :
    MailServer → Credentials → Bool → Time → Time → Time → StoreError ⊎ ℕ → M GcRun
after_report_count server creds enabled rc ec ic (inl e) = pure (store_failed e)
after_report_count server creds enabled rc ec ic (inr reports) = do
  x ← try_call (count_emails_before ec)
  after_email_count server creds enabled rc ec ic reports x

unfoldable pub run_dry_run : MailServer → Credentials → Bool → Time → Time → Time → M GcRun
unfolding try_call count_reports_before count_emails_before search_imap_older_than imap_summary
    gc_notify_kind pure ◌>>=◌
run_dry_run server creds enabled rc ec ic = do
  r ← try_call (count_reports_before rc)
  after_report_count server creds enabled rc ec ic r

abbrev pub imap_enabled : Config → Bool
imap_enabled cfg = ltb_ℤ (pos 0) cfg.imap.retention_days

abbrev pub imap_cutoff_of : Config → Time → Time
imap_cutoff_of cfg now = if imap_enabled cfg then cutoff cfg.imap.retention_days now else zero_time

-- the steps after the check of the sentinel
unfoldable pub run_enabled : FileStore → MailServer → Credentials → Config → GcOptions → M GcRun
unfolding gc_report_cutoff gc_email_cutoff run_delete run_dry_run pure
run_enabled st server creds cfg o =
    let rc = gc_report_cutoff o cfg st.now in
    let ec = gc_email_cutoff o cfg st.now in
    let ic = imap_cutoff_of cfg st.now in
    if o.dry_run
    then run_dry_run server creds (imap_enabled cfg) rc ec ic
    else if imap_enabled cfg
    then if are_missing creds
      then pure (ended exit_error (notified imap_credentials_missing ∷ []))
      else run_delete st server true rc ec ic
    else run_delete st server false rc ec ic

abbrev pub after_sentinel :
    FileStore
    → MailServer
    → Credentials
    → Config
    → GcOptions
    → StoreError ⊎ (Option RecoveryState)
    → M GcRun
after_sentinel st server creds cfg o (inl e) =
    pure (ended exit_error (notified store_corruption ∷ []))
after_sentinel st server creds cfg o (inr (some r)) = pure (ended exit_error [])
after_sentinel st server creds cfg o (inr none) = run_enabled st server creds cfg o

-- `Run`
unfoldable pub run_gc : FileStore → MailServer → Credentials → Config → GcOptions → M GcRun
unfolding try_call load_recovery_required run_enabled pure ◌>>=◌
run_gc st server creds cfg o = do
  r ← try_call load_recovery_required
  after_sentinel st server creds cfg o r
