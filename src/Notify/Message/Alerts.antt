-- ===== src/Notify/Message/Alerts.antt =====
-- formatAlerts of internal/notify/format.go. Sums of sessions are int64 and wrap around.
use tlsrpt_digest.Base.{
  ℕ, zero, suc, ◌+◌, ◌-◌, ◌*◌, ◌==◌, ltb, leb, Bool, false, ◌&&◌, ◌||◌, List, [], ◌∷◌, ◌++◌, map,
  length, take, drop, chunks, String, str_eq, if◌then◌else◌,
}
use tlsrpt_digest.Base.Runes.{runes}
use tlsrpt_digest.Base.Int.{ℤ, pos, negsuc, ◌+ℤ◌, ltb_ℤ, wrap64}
use tlsrpt_digest.Notify.Kinds.{PublicDetail, Alert}
use tlsrpt_digest.Notify.Text.{truncate_text}
use tlsrpt_digest.Notify.Message.{
  SlackField, color_warning, SlackAttachment, SlackMessage, emoji_alert, Printer, full_field,
  run_id_field,
}

-- an alert as LogAlert records it: with the totals over all its failure details
pub record RecordedAlert : Type 0 where
  pub alert : Alert
  pub failure_details_total_count : ℤ
  pub failure_details_total_sessions : ℤ

-- unicode.IsControl, and the two separators
abbrev pub is_break : ℕ → Bool
is_break r = ltb r 32 || (leb 127 r && ltb r 160 || (r == 8232 || r == 8233))

abbrev pub normalize_control_chars : List ℕ → List ℕ
normalize_control_chars s = map (λ r. if is_break r then 32 else r) s

-- a text of a report: on one line, and cut to so many runes
unfoldable pub bounded_text : String → ℕ → List ℕ
unfolding truncate_text
bounded_text s n = truncate_text (normalize_control_chars (runes s)) (pos n)

-- `organizations` are those that are in the map
abbrev pub is_in : String → List String → Bool
is_in x [] = false
is_in x (y ∷ ys) = str_eq x y || is_in x ys

abbrev pub count_new : List RecordedAlert → List String → ℕ
count_new [] seen = 0
count_new (a ∷ xs) seen =
    let new = count_new xs (a.alert.organization_name ∷ seen) in
    let old = count_new xs seen in if is_in a.alert.organization_name seen then old else suc new

unfoldable pub unique_org_count : List RecordedAlert → ℕ
unique_org_count xs = count_new xs []

-- strings.TrimSpace is a parameter
unfoldable pub policy_type_str : (String → String) → String → String
policy_type_str trim_space pt = if str_eq pt "" then "(unknown)" else trim_space pt

abbrev pub sum_sessions : List PublicDetail → ℤ → ℤ
sum_sessions [] total = total
sum_sessions (fd ∷ fds) total = sum_sessions fds (wrap64 (total +ℤ fd.failed_session_count))

abbrev pub max_ℤ : ℤ → ℤ → ℤ
max_ℤ a b = if ltb_ℤ a b then b else a

abbrev negated : ℤ → ℤ
negated (pos zero) = pos zero
negated (pos (suc n)) = negsuc n
negated (negsuc n) = pos (suc n)

abbrev pub max_alert_detail_display : ℕ
max_alert_detail_display = 3

abbrev pub max_alert_policies_per_chunk : ℕ
max_alert_policies_per_chunk = 3

abbrev pub max_alert_attachments : ℕ
max_alert_attachments = 100

abbrev pub max_with_overflow : ℕ
max_with_overflow = (max_alert_attachments - 1) * max_alert_policies_per_chunk + 2

-- the alerts that are shown, and the others
unfoldable pub split_alerts : List RecordedAlert → List RecordedAlert × List RecordedAlert
split_alerts alerts =
    if ltb (max_alert_attachments * max_alert_policies_per_chunk) (length alerts)
    then (take max_with_overflow alerts, drop max_with_overflow alerts)
    else (alerts, [])

abbrev pub sum_failures : List RecordedAlert → ℤ → ℤ
sum_failures [] total = total
sum_failures (a ∷ xs) total = sum_failures xs (wrap64 (total +ℤ a.alert.failure_count))

module _ (p : Printer) (trim_space : String → String) where
  unfoldable pub build_policy_summary_text : Alert → List ℕ
  unfolding bounded_text policy_type_str
  build_policy_summary_text a =
      bounded_text a.organization_name 120
      ++ (runes " | "
          ++ (bounded_text (policy_type_str trim_space a.policy_type) 80
              ++ (runes " | "
                  ++ (p.number a.failure_count
                      ++ (runes " | "
                          ++ (p.date a.date_range.start_datetime
                              ++ (runes " – " ++ p.date a.date_range.end_datetime)))))))

  abbrev pub mx_text : PublicDetail → List ℕ
  mx_text fd =
      if str_eq fd.receiving_mx_hostname ""
      then []
      else runes " | MX: " ++ bounded_text fd.receiving_mx_hostname 120

  abbrev pub reason_text : PublicDetail → List ℕ
  reason_text fd =
      if str_eq fd.failure_reason_code ""
      then []
      else runes " | Reason: " ++ bounded_text fd.failure_reason_code 80

  abbrev pub detail_line : ℕ → PublicDetail → List ℕ
  detail_line n fd =
      runes "["
      ++ (p.number (pos n)
          ++ (runes "] "
              ++ (bounded_text fd.result_type 80
                  ++ (runes ": "
                      ++ (p.number fd.failed_session_count
                          ++ (runes " sessions" ++ (mx_text fd ++ reason_text fd)))))))

  -- the loop over the details that are shown, from the number `n` on
  abbrev pub detail_lines : ℕ → List PublicDetail → List ℕ
  detail_lines n [] = []
  detail_lines n (fd ∷ []) = detail_line n fd
  detail_lines n (fd ∷ (fd' ∷ fds)) = detail_line n fd ++ (10 ∷ detail_lines (suc n) (fd' ∷ fds))

  abbrev pub other_entries : RecordedAlert → List PublicDetail → List PublicDetail → List ℕ
  other_entries a details shown =
      let total = max_ℤ a.failure_details_total_count (pos (length details)) in
      let sessions = max_ℤ a.failure_details_total_sessions (sum_sessions details (pos 0)) in
      let others = max_ℤ (wrap64 (sessions +ℤ negated (sum_sessions shown (pos 0)))) (pos 0) in
      if ltb_ℤ (pos max_alert_detail_display) total
      then runes "Other "
        ++ (p.number (total +ℤ negsuc 2)
            ++ (runes " entries (" ++ (p.number others ++ runes " sessions total)\n")))
      else []

  abbrev pub failure_details_text : RecordedAlert → List PublicDetail → List ℕ
  failure_details_text a [] = []
  failure_details_text a (fd ∷ fds) =
      let shown = take max_alert_detail_display (fd ∷ fds) in
      other_entries a (fd ∷ fds) shown ++ detail_lines 1 shown

  unfoldable pub build_failure_details_text : RecordedAlert → List ℕ
  unfolding bounded_text
  build_failure_details_text a = failure_details_text a a.alert.failure_details

  abbrev pub report_id_fields : Alert → List SlackField
  report_id_fields a =
      if str_eq a.report_id ""
      then []
      else full_field "Report ID" (bounded_text a.report_id 160) ∷ []

  abbrev pub details_fields : List ℕ → List SlackField
  details_fields [] = []
  details_fields (r ∷ rs) = full_field "Failure Details" (r ∷ rs) ∷ []

  unfoldable pub alert_fields : RecordedAlert → List SlackField
  unfolding build_policy_summary_text build_failure_details_text bounded_text
  alert_fields a =
      full_field "Organization / Policy / Failures / Period" (build_policy_summary_text a.alert)
      ∷ (report_id_fields a.alert ++ details_fields (build_failure_details_text a))

  abbrev pub chunk_fields : List RecordedAlert → List SlackField
  chunk_fields [] = []
  chunk_fields (a ∷ xs) = alert_fields a ++ chunk_fields xs

  -- the alerts that no attachment has room for
  abbrev pub overflow_text : List RecordedAlert → List ℕ
  overflow_text xs =
      p.number (pos (length xs))
      ++ (runes " additional policies omitted; organizations: "
          ++ (p.number (pos (unique_org_count xs))
              ++ (runes "; failed sessions: " ++ p.number (sum_failures xs (pos 0)))))

  abbrev pub overflow_fields : List RecordedAlert → List SlackField
  overflow_fields [] = []
  overflow_fields (a ∷ xs) = full_field "Additional Policies" (overflow_text (a ∷ xs)) ∷ []

  abbrev warning_attachment : List SlackField → SlackAttachment
  warning_attachment fields = record { color = color_warning; fields = fields }

  -- the loop over the chunks; the last one has the overflow and the run
  abbrev pub alert_attachments :
      List RecordedAlert → String → List (List RecordedAlert) → List SlackAttachment
  alert_attachments overflow run_id [] = []
  alert_attachments overflow run_id (c ∷ []) =
      warning_attachment
        (chunk_fields c ++ (overflow_fields overflow ++ (run_id_field run_id false ∷ [])))
      ∷ []
  alert_attachments overflow run_id (c ∷ (c' ∷ cs)) =
      warning_attachment (chunk_fields c) ∷ alert_attachments overflow run_id (c' ∷ cs)

  unfoldable pub format_alerts : List RecordedAlert → String → SlackMessage
  unfolding unique_org_count alert_fields split_alerts
  format_alerts alerts run_id =
      let (shown, overflow) = split_alerts alerts in
      record {
        text =
            emoji_alert
            ++ (runes " TLS Failures – "
                ++ (p.number (pos (unique_org_count alerts)) ++ runes " organizations affected"));
        attachments =
            alert_attachments overflow run_id
              (chunks (length shown) max_alert_policies_per_chunk shown);
      }
