-- ===== src/Cmd/Fetch/Command.antt =====
-- cmd/tlsrpt-digest/fetch.go: the steps of the command.
use tlsrpt_digest.Base.{
  ℕ, ltb, Bool, true, false, Option, none, some, ◌⊎◌, inl, inr, List, [], ◌∷◌, length, take, String,
  if◌then◌else◌,
}
use tlsrpt_digest.Store.Types.{StoreError, ReportInput, RecoveryState}
use tlsrpt_digest.Store.Sentinel.{load_recovery_required, save_uid_validity}
use tlsrpt_digest.Store.Emails.{save_email_metas}
use tlsrpt_digest.Store.Reports.{save_reports}
use tlsrpt_digest.Notify.Kinds.{
  store_corruption, recovery_required, imap_credentials_missing, imap_operation_failed,
  mailbox_read_only,
}
use tlsrpt_digest.Cmd.Recover.{ExitCode, exit_ok, exit_error}
use tlsrpt_digest.Cmd.Gc.{are_missing}
use tlsrpt_digest.Cmd.Session.{
  connected, asked_meta, asked_seen, stored_metas, stored_reports, logged_dry_run, Run, return,
  stop, call, emit, ◌>>=◌, ◌>>◌, closing,
}
use tlsrpt_digest.Cmd.Attachments.{log_warn}
use tlsrpt_digest.Cmd.Fetch.{
  FetchMetaResult, MarkSeenError, read_only_mailbox, other_error, FetchRunner, BootContext,
  FetchMsgState, flush, notify_fetch_system_error, fail_with, classify_imap_client_error,
  fetch_since,
}
use tlsrpt_digest.Cmd.Fetch.Validity.{fetch_validate_uid}
use tlsrpt_digest.Cmd.Fetch.Download.{
  build_fetch_states, fetch_download_and_save, build_email_metas, lacking,
}
use tlsrpt_digest.Cmd.Fetch.Collect.{fetch_collect_reports}

unfoldable pub collect_unseen_uids : List FetchMsgState → List ℕ
collect_unseen_uids [] = []
collect_unseen_uids (s ∷ states) =
    let rest = collect_unseen_uids states in if s.meta.seen then rest else s.meta.uid ∷ rest

abbrev dry_run_uid_sample_max : ℕ
dry_run_uid_sample_max = 20

unfoldable pub log_fetch_dry_run_summary : List FetchMsgState → Run Unit
unfolding emit
log_fetch_dry_run_summary states =
    let would_download = lacking states in
    if ltb dry_run_uid_sample_max (length would_download)
    then emit (
        logged_dry_run (length states) (length would_download)
          (take dry_run_uid_sample_max would_download) true)
    else emit (logged_dry_run (length states) (length would_download) would_download false)

unfoldable pub fetch_dry_run_exit : FetchRunner → List FetchMsgState → Run ExitCode
unfolding log_fetch_dry_run_summary flush return ◌>>=◌
fetch_dry_run_exit r states = do log_fetch_dry_run_summary states; ok ← flush r; return exit_ok

abbrev pub marked : FetchRunner → Option MarkSeenError → Run Unit
marked r none = return tt
marked r (some read_only_mailbox) = do log_warn mailbox_read_only 0 0 ""; ok ← flush r; return tt
marked r (some other_error) = stop exit_error

abbrev pub mark : FetchRunner → List ℕ → Run Unit
mark r [] = return tt
mark r (uid ∷ uids) = do emit (asked_seen (uid ∷ uids)); marked r (r.server.mark_seen (uid ∷ uids))

unfoldable pub fetch_mark_seen : FetchRunner → List FetchMsgState → Run Unit
unfolding collect_unseen_uids log_warn flush emit return stop ◌>>=◌
fetch_mark_seen r states = mark r (collect_unseen_uids states)

abbrev pub or_stop : StoreError ⊎ Unit {0} → Run Unit
or_stop (inl e) = stop exit_error
or_stop (inr _) = return tt

abbrev pub unless_flushed : Bool → Run Unit
unless_flushed true = return tt
unless_flushed false = stop exit_error

-- steps 13 and 14
unfoldable pub finish : FetchRunner → BootContext → ℕ → List FetchMsgState → Run ExitCode
unfolding fetch_mark_seen save_uid_validity call return stop ◌>>=◌
finish r boot current states = do
  fetch_mark_seen r states
  saved ← call (save_uid_validity boot.store current)
  or_stop saved
  return exit_ok

-- steps 11 and 12, then the rest
unfoldable pub deliver :
    FetchRunner → BootContext → ℕ → List FetchMsgState → List ReportInput → Run ExitCode
unfolding finish save_reports flush emit call return stop ◌>>=◌
deliver r boot current states reports = do
  saved ← call (save_reports boot.store reports)
  or_stop saved
  emit (stored_reports reports)
  ok ← flush r
  unless_flushed ok
  finish r boot current states

-- steps 8 to 10, then the rest
abbrev pub collected : FetchRunner → BootContext → ℕ → List FetchMsgState → Run ExitCode
collected r boot current states = do
  saved ← call (save_email_metas boot.store (build_email_metas states current))
  or_stop saved
  emit (stored_metas (build_email_metas states current))
  reports ← fetch_collect_reports r boot current states
  deliver r boot current states reports

-- step 7, then the rest
unfoldable pub process : FetchRunner → BootContext → ℕ → List FetchMsgState → Run ExitCode
unfolding deliver fetch_download_and_save build_email_metas save_email_metas fetch_collect_reports
    emit call return stop ◌>>=◌
process r boot current found = do
  states ← fetch_download_and_save r boot current found
  collected r boot current states

abbrev pub with_metas : FetchRunner → BootContext → Option FetchMetaResult → Run ExitCode
with_metas r boot none = fail_with r imap_operation_failed
with_metas r boot (some result) = do
  fetch_validate_uid r boot result.uid_validity
  states ← build_fetch_states r result.messages result.uid_validity
  if boot.options.dry_run
      then fetch_dry_run_exit r states
      else process r boot result.uid_validity states

-- steps 4 to 14
unfoldable pub with_fetcher : FetchRunner → BootContext → Run ExitCode
unfolding fetch_since fetch_validate_uid build_fetch_states fetch_dry_run_exit process
    notify_fetch_system_error emit return stop ◌>>=◌
with_fetcher r boot =
    let since = fetch_since boot.options boot.config r.now in
    emit (asked_meta since) >> with_metas r boot (r.server.fetch_meta since)

abbrev pub connect : FetchRunner → BootContext → Option String → Run ExitCode
connect r boot (some text) = fail_with r (classify_imap_client_error text)
connect r boot none = emit connected >> closing (with_fetcher r boot)

abbrev pub after_sentinel :
    FetchRunner → BootContext → StoreError ⊎ Option RecoveryState → Run ExitCode
after_sentinel r boot (inl e) = fail_with r store_corruption
after_sentinel r boot (inr (some state)) = fail_with r recovery_required
after_sentinel r boot (inr none) =
    if are_missing r.credentials
    then fail_with r imap_credentials_missing
    else connect r boot r.server.connect

-- `Run`
unfoldable pub run_fetch : FetchRunner → BootContext → Run ExitCode
unfolding load_recovery_required with_fetcher classify_imap_client_error notify_fetch_system_error
    emit closing call return stop ◌>>=◌
run_fetch r boot = do state ← call load_recovery_required; after_sentinel r boot state
