-- ===== src/Cmd/Attachments.antt =====
-- What fetch.go and reprocess.go of cmd/tlsrpt-digest do with the attachments of a mail:
-- parseTLSRPTAttachment, and logAlerts and logWarn of notify_helpers.go. The functions of the Go
-- library are parameters.
use tlsrpt_digest.Base.{
  ℕ, ◌-◌, leb, Bool, ◌&&◌, Option, List, [], ◌∷◌, map, String, str_eq, if◌then◌else◌,
}
use Prim.Native.String.{len, slice}
use tlsrpt_digest.Tlsrpt.{FailureDetail, PolicyRecord, Report, fails}
use tlsrpt_digest.Tlsrpt.Parsing.{Decoders, ParseResult, parse_gzip, parse_json}
use tlsrpt_digest.Mailparse.{Attachment, Part}
use tlsrpt_digest.Notify.Kinds.{PublicDetail, Alert, WarningKind}
use tlsrpt_digest.Cmd.Session.{alerted, warned, Run, return, emit, ◌>>=◌, ◌>>◌}

-- strings.ToLower, DecodeHeader of mime.WordDecoder, mail.ReadMessage, and the decoders of a report
pub record GoLibrary : Type 0 where
  pub to_lower : String → String
  pub decode_header : String → Option String
  pub read_message : List ℕ → Option Part
  pub decoders : Decoders

-- `strings.HasSuffix`
abbrev pub has_suffix : String → String → Bool
has_suffix s suffix =
    leb (len suffix) (len s) && str_eq (slice s (len s - len suffix) (len s)) suffix

-- no report and no error where the attachment is not one of a report
pub data AttachmentResult : Type 0 where
  not_tlsrpt : AttachmentResult
  parsed : ParseResult → AttachmentResult

unfoldable pub parse_tlsrpt_attachment : GoLibrary → Attachment → AttachmentResult
unfolding parse_gzip parse_json
parse_tlsrpt_attachment lib att =
    let content_type = lib.to_lower att.content_type in
    let filename = lib.to_lower att.filename in
    if str_eq content_type "application/tlsrpt+gzip"
    then parsed (parse_gzip lib.decoders att.content)
    else if str_eq content_type "application/tlsrpt+json"
    then parsed (parse_json lib.decoders att.content)
    else if has_suffix filename ".json.gz"
    then parsed (parse_gzip lib.decoders att.content)
    else if has_suffix filename ".json"
    then parsed (parse_json lib.decoders att.content)
    else not_tlsrpt

abbrev public_detail : FailureDetail → PublicDetail
public_detail fd = record {
  result_type = fd.result_type;
  failed_session_count = fd.failed_session_count;
  receiving_mx_hostname = fd.receiving_mx_hostname;
  failure_reason_code = fd.failure_reason_code;
}

abbrev pub alert_of : Report → PolicyRecord → Alert
alert_of r p = record {
  organization_name = r.organization_name;
  policy_type = p.policy.policy_type;
  failure_count = p.summary.total_failure_session_count;
  date_range = r.date_range;
  report_id = r.report_id;
  failure_details = map public_detail p.failure_details;
}

-- the loop of logAlerts
unfoldable pub log_policies : Report → List PolicyRecord → Run Unit
unfolding return emit ◌>>=◌
log_policies r [] = return tt
log_policies r (p ∷ ps) =
    let rest = log_policies r ps in if fails p then emit (alerted (alert_of r p)) >> rest else rest

unfoldable pub log_alerts : Report → Run Unit
unfolding log_policies
log_alerts r = log_policies r r.policies

unfoldable pub log_warn : WarningKind → ℕ → ℕ → String → Run Unit
unfolding emit
log_warn kind uid uid_validity message_id = emit (
    warned
      (record { kind = kind; uid = uid; uid_validity = uid_validity; message_id = message_id }))
