-- ===== src/Notify/Handler.antt =====
-- internal/notify/handler.go, helpers.go, validate.go and formatRecords of format.go. A buffered
-- record is the payload that its typed helper wrote: the attributes of slog are its fields, which
-- extractAlert, extractWarning, extractSystemError and extractSummary read back. net/url, the sort of
-- the Go library and the webhook are parameters. The debug log is left out.
pub mod Delivery
pub mod Routing
use tlsrpt_digest.Base.{
  ℕ, suc, ◌+◌, ltb, Bool, true, false, not, ◌&&◌, ◌||◌, Option, none, some, ◌⊎◌, inl, inr, List, [],
  ◌∷◌, ◌++◌, map, length, take, String, str_eq, if◌then◌else◌,
}
use tlsrpt_digest.Base.Int.{ℤ, pos, negsuc, ◌+ℤ◌, ltb_ℤ, wrap64}
use tlsrpt_digest.Notify.Kinds.{PublicDetail, Alert, Warning}
use tlsrpt_digest.Notify.Retry.{
  Reply, NotifyError, BackoffConfig, default_backoff_config, is_unset, Session, post_with_retry,
}
use tlsrpt_digest.Notify.Message.{
  SlackMessage, Printer, SystemError, truncate_message, format_warning, format_system_error,
}
use tlsrpt_digest.Notify.Message.Alerts.{RecordedAlert, sum_sessions, format_alerts}
use tlsrpt_digest.Notify.Message.Summaries.{SortedSummary, format_summary}

pub data LevelMode : Type 0 where
  exact_info warn_and_above : LevelMode

-- slog.LevelInfo, slog.LevelWarn and slog.LevelError are 0, 4 and 8
pub data LogRecord : Type 0 where
  tls_failure_alert : RecordedAlert → LogRecord
  fetch_warning : Warning → LogRecord
  system_error : SystemError → LogRecord
  periodic_summary : SortedSummary → LogRecord

abbrev pub level_of : LogRecord → ℤ
level_of (tls_failure_alert a) = pos 4
level_of (fetch_warning w) = pos 4
level_of (system_error e) = pos 8
level_of (periodic_summary s) = pos 0

pub record SlackHandlerOptions : Type 0 where
  pub webhook_url : String
  pub allowed_host : String
  pub run_id : String
  pub level_mode : LevelMode
  pub is_dry_run : Bool
  pub backoff_config : BackoffConfig

pub record SlackHandler : Type 0 where
  pub opts : SlackHandlerOptions
  pub buf : List LogRecord

abbrev equal_ℤ : ℤ → ℤ → Bool
equal_ℤ a b = not (ltb_ℤ a b) && not (ltb_ℤ b a)

unfoldable pub is_enabled : SlackHandler → ℤ → Bool
is_enabled h level = elim h.opts.level_mode [
  | exact_info ↦ equal_ℤ level (pos 0)
  | warn_and_above ↦ not (ltb_ℤ level (pos 4))
]

-- `Handle`
unfoldable pub handle : LogRecord → SlackHandler → SlackHandler
handle r h = record h { buf = h.buf ++ (r ∷ []) }

abbrev pub log_record : LogRecord → SlackHandler → SlackHandler
log_record r h = if is_enabled h (level_of r) then handle r h else h

abbrev pub max_failure_details : ℕ
max_failure_details = 10

-- the alert that LogAlert records; `sort_details` is slices.SortFunc by descending session counts
unfoldable pub recorded_alert : (List PublicDetail → List PublicDetail) → Alert → RecordedAlert
recorded_alert sort_details a = record {
  alert = record a { failure_details = take max_failure_details (sort_details a.failure_details) };
  failure_details_total_count = pos (length a.failure_details);
  failure_details_total_sessions = sum_sessions a.failure_details (pos 0);
}

unfoldable pub log_alert :
    (List PublicDetail → List PublicDetail) → Alert → SlackHandler → SlackHandler
unfolding is_enabled handle recorded_alert
log_alert sort_details a h = log_record (tls_failure_alert (recorded_alert sort_details a)) h

unfoldable pub log_warning : Warning → SlackHandler → SlackHandler
unfolding is_enabled handle
log_warning w h = log_record (fetch_warning w) h

unfoldable pub log_system_error : SystemError → SlackHandler → SlackHandler
unfolding is_enabled handle
log_system_error e h = log_record (system_error e) h

unfoldable pub log_summary : SortedSummary → SlackHandler → SlackHandler
unfolding is_enabled handle
log_summary s h = log_record (periodic_summary s) h

-- the four slices of formatRecords
pub record Sorted : Type 0 where
  pub alerts : List RecordedAlert
  pub warnings : List Warning
  pub sys_errors : List SystemError
  pub summaries : List SortedSummary

abbrev pub sort_record : LogRecord → Sorted → Sorted
sort_record (tls_failure_alert a) s = record s { alerts = s.alerts ++ (a ∷ []) }
sort_record (fetch_warning w) s = record s { warnings = s.warnings ++ (w ∷ []) }
sort_record (system_error e) s = record s { sys_errors = s.sys_errors ++ (e ∷ []) }
sort_record (periodic_summary x) s = record s { summaries = s.summaries ++ (x ∷ []) }

abbrev pub sort_records : List LogRecord → Sorted → Sorted
sort_records [] s = s
sort_records (r ∷ rs) s = sort_records rs (sort_record r s)

abbrev pub unsorted : Sorted
unsorted = record { alerts = []; warnings = []; sys_errors = []; summaries = [] }

module _ (p : Printer) (trim_space : String → String) (run_id : String) where
  abbrev pub alert_messages : List RecordedAlert → List SlackMessage
  alert_messages [] = []
  alert_messages (a ∷ xs) = format_alerts p trim_space (a ∷ xs) run_id ∷ []

  abbrev pub messages_of : Sorted → List SlackMessage
  messages_of s =
      alert_messages s.alerts
      ++ (map (λ w. format_warning p w run_id) s.warnings
          ++ (map (λ e. format_system_error e run_id) s.sys_errors
              ++ map (λ x. format_summary p x run_id) s.summaries))

  unfoldable pub format_records : List LogRecord → List SlackMessage
  unfolding format_alerts format_warning format_system_error format_summary
  format_records records = messages_of (sort_records records unsorted)

-- a message that was posted, and the error that postWithRetry returned
pub record Posting : Type 0 where
  pub message : SlackMessage
  pub error : Option NotifyError

-- what the webhook answers, and whether a sleep is broken off, by the message and the attempt
pub record Webhook : Type 0 where
  pub server : ℕ → ℕ → Reply
  pub sleeps : ℕ → ℕ → Bool

-- the loop of send, from the message `i` on
unfoldable pub send : Webhook → BackoffConfig → ℕ → List SlackMessage → List Posting
unfolding truncate_message post_with_retry
send hook backoff i [] = []
send hook backoff i (m ∷ ms) =
    record {
      message = truncate_message m;
      error = (post_with_retry (hook.server i) (hook.sleeps i) backoff).error;
    }
    ∷ send hook backoff (suc i) ms

abbrev pub is_error : Option NotifyError → Bool
is_error none = false
is_error (some e) = true

-- whether errors.Join of the errors is not nil
abbrev pub any_error : List Posting → Bool
any_error [] = false
any_error (x ∷ xs) = is_error x.error || any_error xs

abbrev pub cleared : SlackHandler → SlackHandler
cleared h = record h { buf = [] }

abbrev is_nil : List LogRecord → Bool
is_nil [] = true
is_nil (r ∷ rs) = false

-- what is posted, and the handler after it
unfoldable pub flush :
    Printer → (String → String) → Webhook → SlackHandler → List Posting × SlackHandler
unfolding format_records send
flush p trim_space hook h = if is_nil h.buf || h.opts.is_dry_run then ([], cleared h) else (
  send hook h.opts.backoff_config 0 (format_records p trim_space h.opts.run_id h.buf),
  cleared h,
)

-- what url.Parse gives of a webhook
pub record ParsedUrl : Type 0 where
  pub scheme : String
  pub host : String
  pub hostname : String

pub data WebhookError : Type 0 where
  url_empty invalid_format not_https no_host allowed_host_not_configured : WebhookError
  host_mismatch success_only negative_backoff : WebhookError

unfoldable pub validate_env_combination : String → String → Option WebhookError
validate_env_combination success error =
    if not (str_eq success "") && str_eq error "" then some success_only else none

module _ (parse_url : String → Option ParsedUrl) (to_lower : String → String) where
  abbrev pub check_url : String → Option ParsedUrl → Option WebhookError
  check_url allowed_host none = some invalid_format
  check_url allowed_host (some u) =
      if not (str_eq u.scheme "https")
      then some not_https
      else if str_eq u.host ""
      then some no_host
      else if str_eq allowed_host ""
      then some allowed_host_not_configured
      else if str_eq (to_lower u.hostname) (to_lower allowed_host)
      then none
      else some host_mismatch

  unfoldable pub validate_webhook_url : String → String → Option WebhookError
  validate_webhook_url url allowed_host =
      if str_eq url "" then some url_empty else check_url allowed_host (parse_url url)

  abbrev pub create : SlackHandlerOptions → WebhookError ⊎ SlackHandler
  create o =
      if ltb_ℤ o.backoff_config.base (pos 0)
      then inl negative_backoff
      else if is_unset o.backoff_config
      then inr (record { opts = record o { backoff_config = default_backoff_config }; buf = [] })
      else inr (record { opts = o; buf = [] })

  abbrev pub create_if : SlackHandlerOptions → Option WebhookError → WebhookError ⊎ SlackHandler
  create_if o (some e) = inl e
  create_if o none = create o

  unfoldable pub new_slack_handler : SlackHandlerOptions → WebhookError ⊎ SlackHandler
  unfolding validate_webhook_url
  new_slack_handler o =
      if o.is_dry_run && str_eq o.webhook_url ""
      then create o
      else create_if o (validate_webhook_url o.webhook_url o.allowed_host)

  abbrev pub two :
      WebhookError ⊎ SlackHandler → WebhookError ⊎ SlackHandler → WebhookError ⊎ List SlackHandler
  two (inl e) second = inl e
  two (inr h) (inl e) = inl e
  two (inr h) (inr h') = inr (h ∷ h' ∷ [])

  abbrev pub one : WebhookError ⊎ SlackHandler → WebhookError ⊎ List SlackHandler
  one (inl e) = inl e
  one (inr h) = inr (h ∷ [])

  abbrev pub tier : String → LevelMode → SlackHandlerOptions → SlackHandlerOptions
  tier url mode o = record o { webhook_url = url; level_mode = mode }

  -- the handlers of the URLs that are set
  abbrev pub create_set : String → String → SlackHandlerOptions → WebhookError ⊎ List SlackHandler
  create_set success error o =
      if str_eq success ""
      then one (new_slack_handler (tier error warn_and_above o))
      else if str_eq error ""
      then one (new_slack_handler (tier success exact_info o))
      else two (new_slack_handler (tier success exact_info o))
          (new_slack_handler (tier error warn_and_above o))

  abbrev pub url_error : String → String → Option WebhookError
  url_error url allowed_host = if str_eq url "" then none else validate_webhook_url url allowed_host

  abbrev pub first_of : Option WebhookError → Option WebhookError → Option WebhookError
  first_of (some e) second = some e
  first_of none second = second

  abbrev pub unless_error :
      Option WebhookError → WebhookError ⊎ List SlackHandler → WebhookError ⊎ List SlackHandler
  unless_error (some e) result = inl e
  unless_error none result = result

  unfoldable pub build_handlers :
      String → String → String → SlackHandlerOptions → WebhookError ⊎ List SlackHandler
  unfolding new_slack_handler validate_webhook_url validate_env_combination
  build_handlers success error allowed_host o =
      if str_eq success "" && str_eq error ""
      then if o.is_dry_run
        then two (new_slack_handler (record o { level_mode = exact_info }))
            (new_slack_handler (record o { level_mode = warn_and_above }))
        else inr []
      else unless_error
          (first_of (validate_env_combination success error)
            (first_of (url_error success allowed_host) (url_error error allowed_host)))
          (create_set success error o)
