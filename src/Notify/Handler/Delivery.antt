-- ===== src/Notify/Handler/Delivery.antt =====
-- What a flush delivers.
use tlsrpt_digest.Base.{
  ◌≡◌, refl, subst, sym, ap, ◌∙◌, ℕ, suc, ◌+◌, leb, Bool, true, false, not, List, [], ◌∷◌, ◌++◌,
  map, length, length-append, length-map, count, String, arith, if◌then◌else◌,
}
use tlsrpt_digest.Notify.Kinds.{Warning}
use tlsrpt_digest.Notify.Retry.{BackoffConfig}
use tlsrpt_digest.Notify.Message.{
  SlackMessage, Printer, SystemError, truncate_message, format_warning, format_system_error,
}
use tlsrpt_digest.Notify.Message.Alerts.{RecordedAlert}
use tlsrpt_digest.Notify.Message.Summaries.{SortedSummary, format_summary}
use tlsrpt_digest.Notify.Handler.{
  LogRecord, tls_failure_alert, fetch_warning, system_error, periodic_summary, SlackHandler, Sorted,
  sort_record, sort_records, unsorted, alert_messages, messages_of, format_records, Posting,
  Webhook, send, flush, cleared,
}

abbrev pub is_alert : LogRecord → Bool
is_alert (tls_failure_alert a) = true
is_alert r = false

abbrev pub is_other : LogRecord → Bool
is_other r = not (is_alert r)

-- how many messages records make: one for all alerts, and one for each other record
abbrev pub message_count : List LogRecord → ℕ
message_count rs = count is_other rs + (if leb 1 (count is_alert rs) then 1 else 0)

abbrev size_of : Sorted → ℕ
size_of s = length s.warnings + (length s.sys_errors + length s.summaries)

sort_record-size :
    (r : LogRecord) (s : Sorted)
    → (size_of (sort_record r s) ≡ size_of s + (if is_other r then 1 else 0))
      × (length (sort_record r s).alerts ≡ length s.alerts + (if is_alert r then 1 else 0))
sort_record-size (tls_failure_alert a) s =
    (omega arith, omega (arith, length-append s.alerts (a ∷ [])))
sort_record-size (fetch_warning w) s =
    (omega (arith, length-append s.warnings (w ∷ [])), omega arith)
sort_record-size (system_error e) s =
    (omega (arith, length-append s.sys_errors (e ∷ [])), omega arith)
sort_record-size (periodic_summary x) s =
    (omega (arith, length-append s.summaries (x ∷ [])), omega arith)

sort_records-size :
    (rs : List LogRecord) (s : Sorted)
    → (size_of (sort_records rs s) ≡ size_of s + count is_other rs)
      × (length (sort_records rs s).alerts ≡ length s.alerts + count is_alert rs)
sort_records-size [] s = (omega arith, omega arith)
sort_records-size (r ∷ rs) s =
    let k = sort_records-size rs (sort_record r s) in
    let j = sort_record-size r s in (ground (arith, k.0, j.0), ground (arith, k.1, j.1))

module _ (p : Printer) (trim_space : String → String) (run_id : String) where
  alert_messages-length :
      (xs : List RecordedAlert)
      → length (alert_messages p trim_space run_id xs) ≡ (if leb 1 (length xs) then 1 else 0)
  alert_messages-length [] = refl
  alert_messages-length (x ∷ xs) = ground arith

  messages_of-length :
      (s : Sorted)
      → length (messages_of p trim_space run_id s)
        ≡ size_of s + (if leb 1 (length s.alerts) then 1 else 0)
  messages_of-length s =
      let ws = map (λ (w : Warning). format_warning p w run_id) s.warnings in
      let es = map (λ (e : SystemError). format_system_error e run_id) s.sys_errors in
      let xs = map (λ (x : SortedSummary). format_summary p x run_id) s.summaries in
      omega (
        arith,
        length-append (alert_messages p trim_space run_id s.alerts) (ws ++ (es ++ xs)),
        length-append ws (es ++ xs),
        length-append es xs,
        length-map (λ (w : Warning). format_warning p w run_id) s.warnings,
        length-map (λ (e : SystemError). format_system_error e run_id) s.sys_errors,
        length-map (λ (x : SortedSummary). format_summary p x run_id) s.summaries,
        alert_messages-length s.alerts,
      )

  format_records-length :
      (rs : List LogRecord) → length (format_records p trim_space run_id rs) ≡ message_count rs
  unfolding format_records
  format_records-length rs =
      let k = sort_records-size rs unsorted in
      ground (arith, messages_of-length (sort_records rs unsorted), k.0, k.1)

-- the messages that were posted
abbrev pub posted : List Posting → List SlackMessage
posted [] = []
posted (x ∷ xs) = x.message ∷ posted xs

send_lem :
    (hook : Webhook) (backoff : BackoffConfig) (i : ℕ) (ms : List SlackMessage)
    → posted (send hook backoff i ms) ≡ map truncate_message ms
unfolding send
send_lem hook backoff i [] = refl
send_lem hook backoff i (m ∷ ms) =
    ap (λ l. truncate_message m ∷ l) (send_lem hook backoff (suc i) ms)

module _ (p : Printer) (trim_space : String → String) (hook : Webhook) where
  no_messages : (run_id : String) → format_records p trim_space run_id [] ≡ []
  unfolding format_records
  no_messages run_id = refl

  -- what a flush does outside a dry run
  abbrev flushed : SlackHandler → List Posting × SlackHandler
  flushed h = (
    send hook h.opts.backoff_config 0 (format_records p trim_space h.opts.run_id h.buf),
    cleared h,
  )

  flush_live :
      (h : SlackHandler) → h.opts.is_dry_run ≡ false → flush p trim_space hook h ≡ flushed h
  unfolding flush send
  flush_live h live = buffered h.buf refl
    where
      buffered : (rs : List LogRecord) → h.buf ≡ rs → flush p trim_space hook h ≡ flushed h
      buffered [] e = ground arith
      buffered (r ∷ rs) e = ground arith

  flush_cleared : (h : SlackHandler) → flush p trim_space hook (cleared h) ≡ ([], cleared h)
  unfolding flush
  flush_cleared h = refl

  abbrev Delivers : SlackHandler → List Posting × SlackHandler → Type 0
  Delivers h (postings, h') =
      (posted postings ≡ map truncate_message (format_records p trim_space h.opts.run_id h.buf))
      × (length (posted postings) ≡ message_count h.buf)
      × (h'.buf ≡ [])
      × (flush p trim_space hook h' ≡ ([], h'))

-- A flush outside a dry run posts the messages of all records in the buffer, each cut to the limits of
-- Slack, whichever of them the webhook refuses; these are one message for all alerts together and
-- one for each other record. The buffer is empty then, and a second flush posts nothing.
pub flush-delivers_all :
    (p : Printer) (trim_space : String → String) (hook : Webhook) (h : SlackHandler)
    → h.opts.is_dry_run ≡ false
    → let (postings, h') = flush p trim_space hook h in
      (posted postings ≡ map truncate_message (format_records p trim_space h.opts.run_id h.buf))
      × (length (posted postings) ≡ message_count h.buf)
      × (h'.buf ≡ [])
      × (flush p trim_space hook h' ≡ ([], h'))
flush-delivers_all p trim_space hook h live =
    subst (Delivers p trim_space hook h) (sym (flush_live p trim_space hook h live)) (
      let ms = format_records p trim_space h.opts.run_id h.buf in
      let all = send_lem hook h.opts.backoff_config 0 ms in
      (
        all,
        ap length all
            ∙ length-map truncate_message ms
            ∙ format_records-length p trim_space h.opts.run_id h.buf,
        refl,
        flush_cleared p trim_space hook h,
      ))
