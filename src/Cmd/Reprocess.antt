-- ===== src/Cmd/Reprocess.antt =====
-- cmd/tlsrpt-digest/reprocess.go: the reports of all stored mails are parsed and recorded again. What
-- is only logged is left out.
pub mod Rebuilt
pub mod Complete
use tlsrpt_digest.Base.{
  Bool, true, false, ◌&&◌, Option, none, some, ◌⊎◌, inl, inr, List, [], ◌∷◌, ◌++◌, if◌then◌else◌,
}
use tlsrpt_digest.Base.Time.{is_zero}
use tlsrpt_digest.Config.{Config}
use tlsrpt_digest.Tlsrpt.{Report, has_failure}
use tlsrpt_digest.Tlsrpt.Parsing.{report, rejected}
use tlsrpt_digest.Mailparse.{Attachment, Attachments, attachments, mail_error, extract_attachments}
use tlsrpt_digest.Store.Types.{StoreError, EmailMeta, EmailPath, ReportInput, RecoveryState}
use tlsrpt_digest.Store.Sentinel.{FileStore, load_recovery_required}
use tlsrpt_digest.Store.Emails.{save_email_metas}
use tlsrpt_digest.Store.Emails.Load.{LoadedEmail, LoadEmailFailed, Loaded, load_emails}
use tlsrpt_digest.Store.Reports.{save_reports}
use tlsrpt_digest.Notify.Kinds.{SystemErrorKind, store_corruption, parse_failure}
use tlsrpt_digest.Cmd.Recover.{ExitCode, exit_ok, exit_error}
use tlsrpt_digest.Cmd.Session.{
  goes, Event, flushed, reported, stored_metas, stored_reports, Run, return, stop, call, emit,
  ◌>>=◌, ◌>>◌,
}
use tlsrpt_digest.Cmd.Attachments.{
  GoLibrary, AttachmentResult, not_tlsrpt, parsed, parse_tlsrpt_attachment, log_alerts, log_warn,
}

-- what the command has from outside: the notifier's Flush, the Go library and the order in which
-- its walk visits files
pub record Outside : Type 0 where
  pub flush : List Event → Bool
  pub lib : GoLibrary
  pub walk : List EmailPath → List EmailPath

-- `BootContext`, as far as the command reads it
pub record ReprocessContext : Type 0 where
  pub store : FileStore
  pub config : Config
  pub reprocess_notify : Bool

unfoldable pub flush : Outside → Run Bool
flush o s = let ok = o.flush s.trace in (goes ok, record s { trace = flushed ok ∷ s.trace })

unfoldable pub notify_reprocess_system_error : Outside → SystemErrorKind → Run Unit
unfolding emit flush return ◌>>=◌
notify_reprocess_system_error o kind = do emit (reported kind); ok ← flush o; return tt

unfoldable pub build_reprocess_metas : List LoadedEmail → List EmailMeta
build_reprocess_metas [] = []
build_reprocess_metas (e ∷ es) =
    let rest = build_reprocess_metas es in
    if is_zero e.internal_date
    then rest
    else record { uid = e.uid; uid_validity = e.uid_validity; internal_date = e.internal_date }
      ∷ rest

abbrev pub warn_mail : Bool → LoadedEmail → Run (List ReportInput)
warn_mail send e =
    if send then log_warn parse_failure e.uid e.uid_validity "" >> return [] else return []

abbrev pub input_of : LoadedEmail → Report → ReportInput
input_of e rep = record { report = rep; uid = e.uid; uid_validity = e.uid_validity }

abbrev pub take_result : Bool → LoadedEmail → AttachmentResult → Run (List ReportInput)
take_result send e not_tlsrpt = return []
take_result send e (parsed (rejected x)) = warn_mail send e
take_result send e (parsed (report rep)) =
    if send && has_failure rep
    then log_alerts rep >> return (input_of e rep ∷ [])
    else return (input_of e rep ∷ [])

-- the loop over the attachments of a mail
unfoldable pub take_attachments :
    GoLibrary → Bool → LoadedEmail → List Attachment → Run (List ReportInput)
unfolding parse_tlsrpt_attachment log_warn log_alerts has_failure return ◌>>=◌
take_attachments lib send e [] = return []
take_attachments lib send e (att ∷ atts) = do
  first ← take_result send e (parse_tlsrpt_attachment lib att)
  rest ← take_attachments lib send e atts
  return (first ++ rest)

abbrev pub take_mail : GoLibrary → Bool → LoadedEmail → Attachments → Run (List ReportInput)
take_mail lib send e (mail_error x) = warn_mail send e
take_mail lib send e (attachments atts) = take_attachments lib send e atts

-- the loop over the mails
unfoldable pub reprocess_collect_reports :
    GoLibrary → ReprocessContext → List LoadedEmail → Run (List ReportInput)
unfolding take_attachments extract_attachments log_warn return ◌>>=◌
reprocess_collect_reports lib boot [] = return []
reprocess_collect_reports lib boot (e ∷ es) = do
  first ←
      take_mail lib boot.reprocess_notify e
        (extract_attachments lib.decode_header boot.config.imap.max_message_bytes e.message)
  rest ← reprocess_collect_reports lib boot es
  return (first ++ rest)

-- the warnings of step 2
unfoldable pub warn_failures : List LoadEmailFailed → Run Unit
unfolding log_warn return ◌>>=◌
warn_failures [] = return tt
warn_failures (f ∷ fs) = do log_warn parse_failure f.uid f.uid_validity ""; warn_failures fs

abbrev pub or_stop : StoreError ⊎ Unit {0} → Run Unit
or_stop (inl e) = stop exit_error
or_stop (inr _) = return tt

abbrev pub unless_flushed : Bool → Run ExitCode
unless_flushed true = return exit_ok
unless_flushed false = stop exit_error

-- steps 5 and 6
unfoldable pub record_reports : Outside → ReprocessContext → List ReportInput → Run ExitCode
unfolding save_reports flush emit call return stop ◌>>=◌
record_reports o boot reports = do
  saved ← call (save_reports boot.store reports)
  or_stop saved
  emit (stored_reports reports)
  if boot.reprocess_notify then flush o >>= unless_flushed else return exit_ok

-- steps 3 and 4, then the rest
unfoldable pub rebuild : Outside → ReprocessContext → List LoadedEmail → Run ExitCode
unfolding record_reports build_reprocess_metas save_email_metas reprocess_collect_reports emit call
    return stop ◌>>=◌
rebuild o boot emails = do
  saved ← call (save_email_metas boot.store (build_reprocess_metas emails))
  or_stop saved
  emit (stored_metas (build_reprocess_metas emails))
  reports ← reprocess_collect_reports o.lib boot emails
  record_reports o boot reports

abbrev pub corrupted : {A : Type 0} → Outside → Run A
corrupted o = do notify_reprocess_system_error o store_corruption; stop exit_error

abbrev pub with_loaded : Outside → ReprocessContext → StoreError ⊎ Loaded → Run ExitCode
with_loaded o boot (inl e) = corrupted o
with_loaded o boot (inr loaded) = do
  if boot.reprocess_notify then warn_failures loaded.failures else return tt
  rebuild o boot loaded.emails

abbrev pub with_recovery :
    Outside → ReprocessContext → StoreError ⊎ Option RecoveryState → Run ExitCode
with_recovery o boot (inl e) = corrupted o
with_recovery o boot (inr (some state)) = stop exit_error
with_recovery o boot (inr none) =
    call (load_emails o.lib.read_message o.walk) >>= with_loaded o boot

-- `Run`
unfoldable pub run_reprocess : Outside → ReprocessContext → Run ExitCode
unfolding load_recovery_required load_emails warn_failures rebuild notify_reprocess_system_error
    call return stop ◌>>=◌
run_reprocess o boot = call load_recovery_required >>= with_recovery o boot
