-- ===== src/Examples.antt =====
-- Concrete runs: the theorems at inputs where their hypotheses hold.
pub mod Fetch
pub mod Messages
use tlsrpt_digest.Base.{
  ◌≡◌, refl, ◌≢◌, ◌≤◌, ◌<◌, ◌+◌, ◌==◌, inr, ℕ, true, false, none, some, List, [], ◌∷◌, String,
  arith, if◌then◌else◌,
}
use tlsrpt_digest.Base.Int.{pos, ◌+ℤ◌, wrap64}
use tlsrpt_digest.Base.Time.{Time, year_month, day, second, zero_time}
use tlsrpt_digest.Tlsrpt.{Report, PolicyRecord}
use tlsrpt_digest.Store.Types.{
  open_read_write, ImapIdentity, EmailMeta, ReportInput, DataFile, RecoveryState, Sentinel, parsed,
  EmailPath, Eml, Disk,
}
use tlsrpt_digest.Store.Io.{Fault, pass, fail, crash, done, failed}
use tlsrpt_digest.Store.Sentinel.{FileStore}
use tlsrpt_digest.Store.Recovery.{commit_in}
use tlsrpt_digest.Store.Reports.{
  save_reports, get_all_reports, delete_reports_before, count_reports_before,
}
use tlsrpt_digest.Store.Reports.Upsert.{lookup, Unique, last_input, or_else}
use tlsrpt_digest.Store.Reports.Files
use tlsrpt_digest.Store.Reports.Files.{Holds, calm, kept}
use tlsrpt_digest.Store.Types.{zero_internal_date}
use tlsrpt_digest.Store.Emails.{
  build_email_path, same_path, read_eml, files, save_email, save_email_metas, delete_emails_before,
  count_emails_before,
}
use tlsrpt_digest.Store.Emails.Index
use tlsrpt_digest.Store.Emails.Index.{all_dated, entry, UniqueKeys}
use tlsrpt_digest.Store.Emails.Crash
use tlsrpt_digest.Store.Emails.Crash.{Ordered}
use tlsrpt_digest.Store.Emails.Deletion
use tlsrpt_digest.Store.Emails.Deletion.{kept_entries, is_swept}
use tlsrpt_digest.Base.{count, select, length, take, map}
use tlsrpt_digest.Store.Types.{pending_reset}
use tlsrpt_digest.Store.Sentinel.{load_uid_validity, load_recovery_required}
use tlsrpt_digest.Store.Recovery.{manifest_at, apply_recovery}
use tlsrpt_digest.Store.Recovery.Guard
use tlsrpt_digest.Store.Open.{open_store}
use tlsrpt_digest.Notify.Summary.{Summary, generate_summary}
use tlsrpt_digest.Notify.Summary.Totals
use tlsrpt_digest.Notify.Summary.Totals.{is_counted, entry_of}
use tlsrpt_digest.Notify.Text.{truncate_text}
use tlsrpt_digest.Notify.Text.Truncation
use tlsrpt_digest.Notify.Text.Truncation.{IsTruncated}
use tlsrpt_digest.Cmd.Gc.Windows as GcWindows
use tlsrpt_digest.Notify.Retry.{Reply, no_answer, answer, post_with_retry}
use tlsrpt_digest.Base.{ltb}
use tlsrpt_digest.Notify.Retry.{
  NotifyError, slack_server_error, retry, stop, do_attempt, default_backoff_config,
}
use tlsrpt_digest.Notify.Retry.Delivery
use tlsrpt_digest.Notify.Retry.Budget
use tlsrpt_digest.Notify.Retry.Budget.{slept_for}
use tlsrpt_digest.Base.Number.{atoi}
use tlsrpt_digest.Base.{◌*◌, ◌^◌}
use tlsrpt_digest.Config.{Config}
use tlsrpt_digest.Config.Windows
use tlsrpt_digest.Cmd.Duration.{days, parse_duration}
use tlsrpt_digest.Cmd.Duration.Parse
use tlsrpt_digest.Cmd.Gc.{MailServer, GcOptions, Credentials, run_gc}
use tlsrpt_digest.Cmd.Gc.Safety
use tlsrpt_digest.Cmd.Gc.Safety.{no_delete, trace_of}
use tlsrpt_digest.Cmd.Recover.Convergence.{Ends, run_once, run_all, discard_old_converges}

abbrev now : Time
now = zero_time + 739400 * day + 3600 * second

abbrev identity : ImapIdentity
identity = record { host = "imap.example.org"; port = 993; mailbox = "INBOX" }

abbrev recovery : RecoveryState
recovery = record { prev_uid_validity = 7; curr_uid_validity = 9; detected_at = now }

nine_not_zero : ◌≢◌ {A = ℕ} 9 0
nine_not_zero e = omega arith

abbrev sentinel : Sentinel
sentinel = record {
  format_version = 1;
  imap_host = "imap.example.org";
  imap_port = 993;
  imap_mailbox = "INBOX";
  initialized_at = now;
  uid_validity = some 7;
  recovery_required = some recovery;
}

abbrev report : String → ℕ → Report
report id n = record {
  organization_name = "Example";
  report_id = id;
  date_range = record { start_datetime = now; end_datetime = zero_time + n * day };
  policies = [];
}

abbrev meta : ℕ → ℕ → EmailMeta
meta uid n = record { uid = uid; uid_validity = 7; internal_date = zero_time + n * day }

abbrev index : DataFile
index = record {
  version = 1;
  reports = report "a" 739300 ∷ report "b" 739390 ∷ [];
  emails = meta 1 739300 ∷ meta 2 739390 ∷ [];
}

abbrev old_mail : Eml
old_mail = record { path = record { uid_validity = 7; month = 202502; uid = 1 }; raw = 104 ∷ [] }

abbrev disk : Disk
disk = record {
  data_file = some (parsed index);
  emails = some (old_mail ∷ []);
  sentinel = some (parsed sentinel);
  manifest = none;
  staging = none;
  guard_file = true;
}

-- a run stopped after the manifest is written, and one that fails later
abbrev scripts : List (List Fault)
scripts =
    (pass
      ∷ pass
      ∷ pass
      ∷ pass
      ∷ pass
      ∷ pass
      ∷ pass
      ∷ pass
      ∷ crash (record { data_file = true; emails = false })
      ∷ [])
    ∷ (pass ∷ pass ∷ pass ∷ pass ∷ fail (record { data_file = false; emails = true }) ∷ [])
    ∷ []

discard_old_converges_example :
    let (r, w) = run_once identity now (run_all identity now disk scripts) [] in
    Ends r
    × (w.disk.data_file ≡ none)
    × (w.disk.emails ≡ none)
    × (w.disk.sentinel ≡ some (parsed (commit_in 9 sentinel)))
discard_old_converges_example =
    discard_old_converges sentinel 9
      (record { version = refl; state = recovery; required = refl; current = refl }) nine_not_zero
      identity refl now disk refl refl scripts

abbrev store : FileStore
store = record { identity = identity; mode = open_read_write; now = now }

readable : Holds disk index
readable = Holds.present refl refl

abbrev inputs : List ReportInput
inputs =
    record { report = report "b" 739395; uid = 3; uid_validity = 7 }
    ∷ record { report = report "c" 739396; uid = 4; uid_validity = 7 }
    ∷ []

save_reports-then-get_all_reports_example :
    let (r, w) = save_reports store inputs (calm disk) in
    (all : List Report) × (r ≡ done tt)
    × (get_all_reports w ≡ (done all, w))
    × ((id : String) → lookup id all ≡ or_else (last_input id inputs) (lookup id index.reports))
save_reports-then-get_all_reports_example =
    Files.save_reports-then-get_all_reports store disk index inputs refl readable

reports_differ : Unique index.reports
reports_differ = (refl, (refl, tt))

save_reports-Unique_example :
    (all : List Report) × (get_all_reports (save_reports store inputs (calm disk)).1
      ≡ (done all, (save_reports store inputs (calm disk)).1))
    × Unique all
save_reports-Unique_example =
    Files.save_reports-Unique store disk index inputs refl readable reports_differ

abbrev cutoff_day : Time
cutoff_day = zero_time + 739350 * day

delete_reports_before-deletes_example :
    let (r, w) = delete_reports_before store cutoff_day (calm disk) in
    (count_reports_before cutoff_day (calm disk) ≡ (r, calm disk))
    × (get_all_reports w ≡ (done (kept cutoff_day index.reports), w))
    × (delete_reports_before store cutoff_day w ≡ (done 0, w))
delete_reports_before-deletes_example =
    Files.delete_reports_before-deletes store disk index cutoff_day refl readable

save_email-first-wins_example :
    let (r, w) = save_email store 5 7 now (98 ∷ []) (calm disk) in
    (r ≡ done tt)
    × ((q : EmailPath)
        → read_eml q (files w.disk.emails)
          ≡ or_else
              (read_eml q (files disk.emails))
              (if same_path (build_email_path 5 7 now) q then some (98 ∷ []) else none))
save_email-first-wins_example = Index.save_email-first-wins store disk 5 7 now (98 ∷ []) refl refl

abbrev metas : List EmailMeta
metas = meta 2 739391 ∷ meta 3 739392 ∷ meta 3 739393 ∷ []

keys_differ : UniqueKeys index.emails
keys_differ = (refl, (refl, tt))

save_email_metas-first-wins_example :
    (out : List EmailMeta) × (save_email_metas store metas (calm disk)
      ≡ (done tt, calm (record disk { data_file = some (parsed (record index { emails = out })) })))
    × ((uid v : ℕ) → entry uid v out ≡ or_else (entry uid v index.emails) (entry uid v metas))
    × UniqueKeys out
save_email_metas-first-wins_example =
    Index.save_email_metas-first-wins store disk index metas refl readable refl keys_differ

abbrev undated : List EmailMeta
undated = meta 5 739392 ∷ meta 6 0 ∷ []

save_email_metas-refuses_example :
    save_email_metas store undated (calm disk) ≡ (failed zero_internal_date, calm disk)
save_email_metas-refuses_example =
    Index.save_email_metas-refuses store disk index undated refl readable refl

delete_emails_before-deletes_example :
    let (r, w) = delete_emails_before store cutoff_day (calm disk) in
    (n : ℕ) × (r ≡ done (record { deleted = n; failures = []; save_failed = false }))
    × (count_emails_before cutoff_day (calm disk) ≡ (done n, calm disk))
    × Holds w.disk (record index { emails = kept_entries cutoff_day index.emails })
    × ((q : EmailPath)
        → read_eml q (files w.disk.emails)
          ≡ (if is_swept cutoff_day q index.emails then none else read_eml q (files disk.emails)))
delete_emails_before-deletes_example =
    Deletion.delete_emails_before-deletes store disk index cutoff_day refl refl readable

-- the first answer asks for three seconds, the second attempt gets none, the third is accepted
abbrev server : ℕ → Reply
server n = if n == 0 then no_answer else if n == 1 then answer 429 (51 ∷ []) else answer 200 []

base_small : 2 * second < 2 ^ 33
base_small = omega arith

post_with_retry-keeps_budget_example :
    let s =
      post_with_retry server (λ _. true) (record { base = pos (2 * second); retry_count = 3 }) in
    (slept_for s.waits ≤ 14 * second) × (1 ≤ s.attempts) × (s.attempts ≤ 4)
post_with_retry-keeps_budget_example =
    Budget.post_with_retry-keeps_budget server (λ _. true) (2 * second) 3 base_small

abbrev config : Config
config = record {
  imap = record {
    host = "imap.example.org";
    port = pos 993;
    mailbox = "INBOX";
    fetch_days = pos 14;
    tls_ca_cert = "";
    max_message_bytes = pos 1048576;
    retention_days = pos 30;
  };
  allowed_host = 104 ∷ [];
  root_dir = "./store";
  retention_days = pos 30;
  max_email_age_days = pos 30;
  window_days = pos 7;
}

-- "4w"
four_weeks : parse_duration (52 ∷ 119 ∷ []) ≡ days 28
unfolding parse_duration atoi
four_weeks = refl

parse_duration-in_range_example : (1 ≤ 28) × (28 < 2 ^ 63)
parse_duration-in_range_example = Parse.parse_duration-in_range (52 ∷ 119 ∷ []) 28 four_weeks

abbrev mail_server : MailServer
mail_server = record {
  connect = none;
  delete_older_than = λ _. some 2;
  search_older_than = λ _. some (1 ∷ 2 ∷ []);
}

abbrev credentials : Credentials
credentials = record { username = "user"; password = "secret" }

abbrev dry : GcOptions
dry = record { dry_run = true; before = none; max_email_age = none }

run_gc-dry_run_example :
    let (r, w') = run_gc store mail_server credentials config dry (calm disk) in
    (w'.disk ≡ disk) × (no_delete (trace_of r) ≡ true)
run_gc-dry_run_example =
    Safety.run_gc-dry_run store mail_server credentials config dry refl (calm disk)

abbrev policy : ℕ → ℕ → PolicyRecord
policy good bad = record {
  policy = record {
    policy_type = "sts";
    policy_string = [];
    policy_domain = "example.org";
    mx_host = [];
  };
  summary = record {
    total_successful_session_count = pos good;
    total_failure_session_count = pos bad;
  };
  failure_details = [];
}

-- two reports of the period without failures, one with a failure, and one of an earlier day
abbrev busy_index : DataFile
busy_index = record index {
  reports =
      record (report "a" 739395) { policies = policy 12 0 ∷ policy 5 0 ∷ [] }
      ∷ record (report "b" 739396) { policies = policy 3 0 ∷ [] }
      ∷ record (report "c" 739396) { policies = policy 7 1 ∷ [] }
      ∷ record (report "d" 739300) { policies = policy 9 0 ∷ [] }
      ∷ [];
}

abbrev busy_disk : Disk
busy_disk = record disk { data_file = some (parsed busy_index) }

twenty : entry_of "Example" (select (is_counted cutoff_day now) busy_index.reports) ≡ some (pos 20)
unfolding wrap64 ◌+ℤ◌
twenty = refl

generate_summary-adds_example :
    (s : Summary) × (generate_summary (λ _. false) cutoff_day now (calm busy_disk)
      ≡ (done (s, none), calm busy_disk))
    × (s.report_count ≡ 2)
    × ((org : String)
        → s.stats org ≡ entry_of org (select (is_counted cutoff_day now) busy_index.reports))
generate_summary-adds_example =
    Totals.generate_summary-adds (λ _. false) cutoff_day now busy_disk busy_index (λ _. refl)
      (Holds.present refl refl)

abbrev five_runes : List ℕ
five_runes = 97 ∷ 98 ∷ 99 ∷ 100 ∷ 101 ∷ []

truncate_text-fits_example :
    (length (truncate_text five_runes (pos 4)) ≤ 4)
    × IsTruncated five_runes 4 (truncate_text five_runes (pos 4))
    × (truncate_text (truncate_text five_runes (pos 4)) (pos 4) ≡ truncate_text five_runes (pos 4))
truncate_text-fits_example = Truncation.truncate_text-fits five_runes (pos 4)

abbrev live_disk : Disk
live_disk = record disk { manifest = some (parsed (manifest_at 9 1)) }

pending_reset-guards_example :
    (apply_recovery store 9 (calm live_disk) ≡ (failed pending_reset, calm live_disk))
    × (open_store identity open_read_write now (calm live_disk)
        ≡ (failed pending_reset, calm live_disk))
pending_reset-guards_example =
    Guard.pending_reset-guards store identity now 9 live_disk sentinel recovery refl refl refl refl
      refl

apply_recovery-then-load_uid_validity_example :
    let (r, w) = apply_recovery store 9 (calm disk) in
    (r ≡ done tt)
    × (load_uid_validity w ≡ (done (some 9), w))
    × (load_recovery_required w ≡ (done none, w))
    × (w.disk.data_file ≡ disk.data_file)
    × (w.disk.emails ≡ disk.emails)
    × (w.disk.sentinel ≡ some (parsed (commit_in 9 sentinel)))
apply_recovery-then-load_uid_validity_example =
    Guard.apply_recovery-then-load_uid_validity store 9 disk sentinel refl refl refl refl

-- two answers of 503, then one of 200
abbrev busy_server : ℕ → Reply
busy_server n = if ltb n 2 then answer 503 [] else answer 200 []

busy_twice : (i : ℕ) → i < 2 → (e : NotifyError) × (do_attempt (busy_server i) ≡ retry e none)
unfolding do_attempt
busy_twice i h = (slack_server_error 503, ground arith)

third_accepted : do_attempt (busy_server 2) ≡ stop none
unfolding do_attempt
third_accepted = refl

two_within : 2 ≤ 3
two_within = omega arith

post_with_retry-delivers_example :
    let s = post_with_retry busy_server (λ _. true) default_backoff_config in
    (s.error ≡ none) × (s.attempts ≡ 3)
post_with_retry-delivers_example =
    Delivery.post_with_retry-delivers busy_server (λ _. true) 2 (λ _. refl) two_within busy_twice
      third_accepted

-- the months of the first and last days of years and leap years, by their number of days
months_agree :
    map
      (λ n. year_month (zero_time + n * day))
      (739400 ∷ 738944 ∷ 738945 ∷ 730178 ∷ 738884 ∷ 738885 ∷ 0 ∷ 766702 ∷ 766703 ∷ [])
    ≡ 202505 ∷ 202402 ∷ 202403 ∷ 200002 ∷ 202312 ∷ 202401 ∷ 101 ∷ 210002 ∷ 210003 ∷ []
unfolding year_month
months_agree = refl

-- the file is removed, and the process stops before the index is written
abbrev stopped : List Fault
stopped = pass ∷ pass ∷ crash (record { data_file = false; emails = false }) ∷ []

delete_emails_before-Ordered_example :
    Ordered index disk
      (delete_emails_before store cutoff_day (record { disk = disk; faults = stopped })).1.disk
delete_emails_before-Ordered_example =
    Crash.delete_emails_before-Ordered store cutoff_day disk index stopped readable
