-- ===== src/Examples/Messages.antt =====
-- Concrete messages to Slack, and their delivery.
use tlsrpt_digest.Base.{
  ◌≡◌, refl, ◌≤◌, ◌+◌, ◌*◌, inr, true, false, Option, some, List, [], ◌∷◌, ◌++◌, length, map,
  String,
}
use tlsrpt_digest.Base.Int.{pos}
use tlsrpt_digest.Base.Time.{Time, zero_time, day}
use tlsrpt_digest.Notify.Retry.{answer}
use tlsrpt_digest.Notify.Message.{Printer, truncate_message, run_id_field}
use tlsrpt_digest.Notify.Message.Alerts.{RecordedAlert, format_alerts}
use tlsrpt_digest.Notify.Message.Summaries.{SortedSummary, organization_field, format_summary}
use tlsrpt_digest.Notify.Message.Limits
use tlsrpt_digest.Notify.Message.Limits.{within_fields}
use tlsrpt_digest.Notify.Message.Complete
use tlsrpt_digest.Notify.Message.Complete.{all_fields, AllShown}
use tlsrpt_digest.Notify.Handler.{
  exact_info, warn_and_above, tls_failure_alert, periodic_summary, SlackHandlerOptions,
  SlackHandler, ParsedUrl, Webhook, is_enabled, build_handlers, flush, format_records,
}
use tlsrpt_digest.Notify.Handler.Routing
use tlsrpt_digest.Notify.Handler.Routing.{takers}
use tlsrpt_digest.Notify.Handler.Delivery
use tlsrpt_digest.Notify.Handler.Delivery.{posted, message_count}

abbrev plain : Printer
plain = record { number = λ n. b'1' ∷ []; date = λ t. b'd' ∷ []; date_here = λ t. b'd' ∷ [] }

abbrev same_text : String → String
same_text s = s

abbrev noon : Time
noon = zero_time + 738000 * day

abbrev failing : RecordedAlert
failing = record {
  alert = record {
    organization_name = "Example";
    policy_type = "sts";
    failure_count = pos 2;
    date_range = record { start_datetime = noon; end_datetime = noon + day };
    report_id = "r1";
    failure_details = [];
  };
  failure_details_total_count = pos 0;
  failure_details_total_sessions = pos 0;
}

abbrev four : List RecordedAlert
four = failing ∷ failing ∷ failing ∷ failing ∷ []

format_alerts-within_limits_example :
    let m = format_alerts plain same_text four "run" in
    (length m.attachments ≤ 100) × (within_fields 10 m.attachments ≡ true)
format_alerts-within_limits_example = Limits.format_alerts-within_limits plain same_text four "run"

-- two attachments for four alerts
four_attachments : length (format_alerts plain same_text four "run").attachments ≡ 2
unfolding format_alerts
four_attachments = refl

format_alerts-shows_all_example :
    AllShown plain same_text
      (failing ∷ four)
      "run"
      (format_alerts plain same_text (failing ∷ four) "run").attachments
format_alerts-shows_all_example =
    Complete.format_alerts-shows_all plain same_text failing four "run"

abbrev digest : SortedSummary
digest = record {
  start = noon;
  end = noon + 7 * day;
  organization_stats = ("Example", pos 12) ∷ ("Other", pos 3) ∷ [];
  report_count = pos 4;
}

format_summary-shows_all_example :
    let m = format_summary plain digest "run" in
    (all_fields m.attachments
      ≡ map (organization_field plain) digest.organization_stats ++ (run_id_field "run" true ∷ []))
    × (within_fields 10 m.attachments ≡ true)
format_summary-shows_all_example = Complete.format_summary-shows_all plain digest "run"

abbrev options : SlackHandlerOptions
options = record {
  webhook_url = "";
  allowed_host = "hooks.example";
  run_id = "run";
  level_mode = exact_info;
  is_dry_run = false;
  backoff_config = record { base = pos 0; retry_count = 0 };
}

abbrev parse : String → Option ParsedUrl
parse url = some (record { scheme = "https"; host = "hooks.example"; hostname = "hooks.example" })

abbrev production : SlackHandlerOptions
production = record options { backoff_config = record { base = pos 2000000000; retry_count = 3 } }

abbrev handler_of : String → SlackHandlerOptions → SlackHandler
handler_of url o = record { opts = record o { webhook_url = url }; buf = [] }

abbrev both : List SlackHandler
both =
    handler_of "https://hooks.example/s" (record production { level_mode = exact_info })
    ∷ handler_of "https://hooks.example/e" (record production { level_mode = warn_and_above })
    ∷ []

built :
    build_handlers parse same_text "https://hooks.example/s" "https://hooks.example/e"
      "hooks.example" options
    ≡ inr both
unfolding build_handlers
built = refl

abbrev error_only : List SlackHandler
error_only =
    handler_of "https://hooks.example/e" (record production { level_mode = warn_and_above }) ∷ []

built_error_only :
    build_handlers parse same_text "" "https://hooks.example/e" "hooks.example" options
    ≡ inr error_only
unfolding build_handlers
built_error_only = refl

summary_untaken : takers (periodic_summary digest) error_only ≡ 0
unfolding is_enabled
summary_untaken = refl

build_handlers-takers_example : takers (tls_failure_alert failing) both ≡ 1
build_handlers-takers_example =
    Routing.build_handlers-takers parse same_text "https://hooks.example/s"
      "https://hooks.example/e" "hooks.example" options both (tls_failure_alert failing) built

abbrev buffered : SlackHandler
buffered =
    record (handler_of "https://hooks.example/e"
      (record production { level_mode = warn_and_above })) {
        buf = tls_failure_alert failing ∷ tls_failure_alert failing ∷ periodic_summary digest ∷ [];
      }

abbrev webhook : Webhook
webhook = record { server = λ i n. answer 404 []; sleeps = λ i n. true }

flush-delivers_all_example :
    let (postings, h) = flush plain same_text webhook buffered in
    (posted postings ≡ map truncate_message (format_records plain same_text "run" buffered.buf))
    × (length (posted postings) ≡ message_count buffered.buf)
    × (h.buf ≡ [])
    × (flush plain same_text webhook h ≡ ([], h))
flush-delivers_all_example = Delivery.flush-delivers_all plain same_text webhook buffered refl

-- a message for the alerts and one for the summary
two_messages : message_count buffered.buf ≡ 2
two_messages = refl
