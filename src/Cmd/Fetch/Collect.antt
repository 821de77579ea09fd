-- ===== src/Cmd/Fetch/Collect.antt =====
-- cmd/tlsrpt-digest/fetch.go: the reports in the mails.
use tlsrpt_digest.Base.{
  ℕ, not, ◌&&◌, ◌||◌, Option, none, some, ◌⊎◌, inl, inr, List, [], ◌∷◌, ◌++◌, if◌then◌else◌,
}
use tlsrpt_digest.Tlsrpt.{Report, has_failure}
use tlsrpt_digest.Tlsrpt.Parsing.{report, rejected}
use tlsrpt_digest.Mailparse.{
  Attachment, Part, Attachments, attachments, mail_error, extract_attachments,
}
use tlsrpt_digest.Store.Types.{StoreError, ReportInput}
use tlsrpt_digest.Notify.Kinds.{parse_failure}
use tlsrpt_digest.Cmd.Recover.{exit_error}
use tlsrpt_digest.Cmd.Session.{Run, return, stop, call, ◌>>=◌, ◌>>◌}
use tlsrpt_digest.Cmd.Attachments.{
  AttachmentResult, not_tlsrpt, parsed, parse_tlsrpt_attachment, log_alerts, log_warn,
}
use tlsrpt_digest.Cmd.Fetch.{FetchRunner, BootContext, FetchMsgState, load_local_eml}

abbrev pub report_input : FetchMsgState → ℕ → Report → ReportInput
report_input s current rep = record { report = rep; uid = s.meta.uid; uid_validity = current }

abbrev pub keep_report : FetchMsgState → ℕ → Report → Run (List ReportInput)
keep_report s current rep =
    if not s.meta.seen && has_failure rep
    then log_alerts rep >> return (report_input s current rep ∷ [])
    else return (report_input s current rep ∷ [])

abbrev pub process_result : FetchMsgState → ℕ → AttachmentResult → Run (List ReportInput)
process_result s current not_tlsrpt = return []
process_result s current (parsed (rejected e)) =
    log_warn parse_failure s.meta.uid current s.meta.message_id >> return []
process_result s current (parsed (report rep)) = keep_report s current rep

unfoldable pub process_attachments :
    FetchRunner → List Attachment → FetchMsgState → ℕ → Run (List ReportInput)
unfolding parse_tlsrpt_attachment log_warn log_alerts has_failure return ◌>>=◌
process_attachments r [] s current = return []
process_attachments r (att ∷ atts) s current = do
  first ← process_result s current (parse_tlsrpt_attachment r.lib att)
  rest ← process_attachments r atts s current
  return (first ++ rest)

abbrev pub warn_parse : FetchMsgState → ℕ → Run (List ReportInput)
warn_parse s current = log_warn parse_failure s.meta.uid current s.meta.message_id >> return []

abbrev pub extracted_from : FetchRunner → FetchMsgState → ℕ → Attachments → Run (List ReportInput)
extracted_from r s current (mail_error e) = warn_parse s current
extracted_from r s current (attachments atts) = process_attachments r atts s current

abbrev pub read_mail :
    FetchRunner → BootContext → FetchMsgState → ℕ → Option Part → Run (List ReportInput)
read_mail r boot s current none = warn_parse s current
read_mail r boot s current (some message) =
    extracted_from r s current
      (extract_attachments r.lib.decode_header boot.config.imap.max_message_bytes message)

abbrev pub parse_eml :
    FetchRunner → BootContext → FetchMsgState → ℕ → List ℕ → Run (List ReportInput)
parse_eml r boot s current raw = read_mail r boot s current (r.lib.read_message raw)

abbrev pub loaded_eml :
    FetchRunner → BootContext → FetchMsgState → ℕ → StoreError ⊎ List ℕ → Run (List ReportInput)
loaded_eml r boot s current (inl e) = stop exit_error
loaded_eml r boot s current (inr raw) = parse_eml r boot s current raw

abbrev pub collect_eml :
    FetchRunner → BootContext → FetchMsgState → ℕ → Option (List ℕ) → Run (List ReportInput)
collect_eml r boot s current (some raw) = parse_eml r boot s current raw
collect_eml r boot s current none =
    if not s.eml_existed_before || s.meta.seen
    then return []
    else call (load_local_eml s.meta.uid current s.meta.date) >>= loaded_eml r boot s current

-- the body of the loop of fetchCollectReports
unfoldable pub collect_message :
    FetchRunner → BootContext → ℕ → FetchMsgState → Run (List ReportInput)
unfolding load_local_eml process_attachments extract_attachments log_warn call return stop ◌>>=◌
collect_message r boot current s =
    if s.meta.seen && s.eml_existed_before
    then return []
    else collect_eml r boot s current s.raw_eml

unfoldable pub fetch_collect_reports :
    FetchRunner → BootContext → ℕ → List FetchMsgState → Run (List ReportInput)
unfolding collect_message return ◌>>=◌
fetch_collect_reports r boot current [] = return []
fetch_collect_reports r boot current (s ∷ states) = do
  first ← collect_message r boot current s
  rest ← fetch_collect_reports r boot current states
  return (first ++ rest)
