-- ===== src/Notify/Message.antt =====
-- internal/notify/format.go and message.go: the messages to Slack. The title of a field is a text,
-- its value and the text of a message the list of their runes, since these are cut to a number of
-- runes. Counts in a message are written by fmt, and dates by time.Format, which is a parameter.
pub mod Alerts
pub mod Limits
pub mod Complete
pub mod Summaries
use tlsrpt_digest.Base.{
  ℕ, zero, suc, ◌+◌, ◌-◌, ◌/◌, ◌%◌, ◌==◌, ltb, leb, Bool, true, false, not, ◌&&◌, ◌||◌, Option,
  none, some, List, [], ◌≡◌, refl, ◌∷◌, ◌++◌, map, length, take, drop, String, str_eq,
  if◌then◌else◌,
}
use tlsrpt_digest.Base.Runes.{runes}
use tlsrpt_digest.Base.Int.{ℤ, pos, negsuc, ltb_ℤ}
use tlsrpt_digest.Base.Time.{Time}
use tlsrpt_digest.Notify.Kinds.{
  SystemErrorKind, lock_held, store_identity_mismatch, store_permission, store_corruption,
  imap_credentials_missing, imap_connect_failed, imap_auth_failed, imap_operation_failed,
  uid_validity_changed, recovery_required, reset_incomplete, notification_flush_failed, WarningKind,
  Warning, size_mismatch, parse_failure, mailbox_read_only,
}
use tlsrpt_digest.Notify.Text.{truncate_text}

pub record SlackField : Type 0 where
  pub title : String
  pub value : List ℕ
  pub short : Bool

pub data Color : Type 0 where
  color_good color_warning color_danger : Color

pub record SlackAttachment : Type 0 where
  pub color : Color
  pub fields : List SlackField

pub record SlackMessage : Type 0 where
  pub text : List ℕ
  pub attachments : List SlackAttachment

abbrev pub emoji_alert : List ℕ
emoji_alert = 9888 ∷ 65039 ∷ []

abbrev pub emoji_error : List ℕ
emoji_error = 128680 ∷ []

abbrev pub emoji_success : List ℕ
emoji_success = 9989 ∷ []

-- fmt's %d, and the date that time.Format gives, in UTC and in the zone of the time
pub record Printer : Type 0 where
  pub number : ℤ → List ℕ
  pub date : Time → List ℕ
  pub date_here : Time → List ℕ

abbrev pub full_field : String → List ℕ → SlackField
full_field title value = record { title = title; value = value; short = false }

abbrev pub short_field : String → List ℕ → SlackField
short_field title value = record { title = title; value = value; short = true }

abbrev pub run_id_field : String → Bool → SlackField
run_id_field run_id short = record { title = "Run ID"; value = runes run_id; short = short }

abbrev pub max_text_runes : ℤ
max_text_runes = pos 4000

abbrev pub max_field_runes : ℤ
max_field_runes = pos 1000

abbrev truncate_field : SlackField → SlackField
truncate_field f = record f { value = truncate_text f.value max_field_runes }

abbrev pub truncate_attachment : SlackAttachment → SlackAttachment
truncate_attachment a = record a { fields = map truncate_field a.fields }

unfoldable pub truncate_message : SlackMessage → SlackMessage
unfolding truncate_text
truncate_message m = record {
  text = truncate_text m.text max_text_runes;
  attachments = map truncate_attachment m.attachments;
}

-- `string(w.Kind)`
abbrev pub warning_kind_text : WarningKind → String
warning_kind_text size_mismatch = "size_mismatch"
warning_kind_text parse_failure = "parse_failure"
warning_kind_text mailbox_read_only = "mailbox_read_only"

abbrev pub warning_uid_fields : Printer → Warning → List SlackField
warning_uid_fields p w =
    if w.uid == 0 || w.uid_validity == 0
    then []
    else short_field "UID" (p.number (pos w.uid))
      ∷ short_field "UIDValidity" (p.number (pos w.uid_validity))
      ∷ []

abbrev pub message_id_fields : Warning → List SlackField
message_id_fields w =
    if str_eq w.message_id "" then [] else full_field "Message-ID" (runes w.message_id) ∷ []

unfoldable pub format_warning : Printer → Warning → String → SlackMessage
format_warning p w run_id =
    let kind = runes (warning_kind_text w.kind) in
    let fields =
      (short_field "Kind" kind ∷ warning_uid_fields p w)
      ++ (message_id_fields w ++ (run_id_field run_id true ∷ [])) in
    record {
      text = emoji_alert ++ (runes " Fetch Warning: " ++ kind);
      attachments = record { color = color_warning; fields = fields } ∷ [];
    }

-- `SystemError`
pub record SystemError : Type 0 where
  pub kind : SystemErrorKind
  pub component : String
  pub mailbox : String

abbrev pub system_error_kind_text : SystemErrorKind → String
system_error_kind_text lock_held = "lock_held"
system_error_kind_text store_identity_mismatch = "store_identity_mismatch"
system_error_kind_text store_permission = "store_permission"
system_error_kind_text store_corruption = "store_corruption"
system_error_kind_text imap_credentials_missing = "imap_credentials_missing"
system_error_kind_text imap_connect_failed = "imap_connect_failed"
system_error_kind_text imap_auth_failed = "imap_auth_failed"
system_error_kind_text imap_operation_failed = "imap_operation_failed"
system_error_kind_text uid_validity_changed = "uidvalidity_changed"
system_error_kind_text recovery_required = "recovery_required"
system_error_kind_text reset_incomplete = "reset_incomplete"
system_error_kind_text notification_flush_failed = "notification_flush_failed"

unfoldable pub system_error_hint : SystemErrorKind → String
system_error_hint uid_validity_changed =
    "Run: tlsrpt-digest --config <path> recover --mode discard-old --yes"
system_error_hint recovery_required =
    "Run: tlsrpt-digest --config <path> recover --mode discard-old --yes"
system_error_hint imap_credentials_missing =
    "Set TLSRPT_IMAP_USERNAME and TLSRPT_IMAP_PASSWORD environment variables"
system_error_hint _ = ""

abbrev pub mailbox_fields : SystemError → List SlackField
mailbox_fields e = if str_eq e.mailbox "" then [] else short_field "Mailbox" (runes e.mailbox) ∷ []

abbrev pub hint_fields : SystemError → List SlackField
hint_fields e =
    let hint = system_error_hint e.kind in
    if str_eq hint "" then [] else full_field "Action Required" (runes hint) ∷ []

unfoldable pub format_system_error : SystemError → String → SlackMessage
unfolding system_error_hint
format_system_error e run_id =
    let kind = runes (system_error_kind_text e.kind) in
    let fields =
      (short_field "Kind" kind ∷ short_field "Component" (runes e.component) ∷ mailbox_fields e)
      ++ (hint_fields e ++ (run_id_field run_id true ∷ [])) in
    record {
      text = emoji_error ++ (runes " System Error: " ++ kind);
      attachments = record { color = color_danger; fields = fields } ∷ [];
    }
