-- ===== src/Examples/Fetch.antt =====
-- Concrete runs of the fetch, reprocess and summary commands and of the parsing of their mails.
use tlsrpt_digest.Base.{
  ◌≡◌, refl, ◌≤◌, ◌↔◌, ◌+◌, ◌*◌, ℕ, suc, Bool, true, false, Option, none, some, List, [], ◌∷◌,
  String, arith, length,
}
use tlsrpt_digest.Base.Int.{pos}
use tlsrpt_digest.Base.Time.{Time, zero_time, day}
use tlsrpt_digest.Tlsrpt.{Report}
use tlsrpt_digest.Tlsrpt.Parsing.{Decoders, report}
use tlsrpt_digest.Tlsrpt.Parsing.Soundness
use tlsrpt_digest.Tlsrpt.Parsing.Soundness.{raw_of, gzip, parse, Encodes}
use tlsrpt_digest.Mailparse.{
  Attachment, media, Reading, eof, chunk, Part, part, end, then_part, attachments,
  extract_attachments, max_multipart_depth,
}
use tlsrpt_digest.Mailparse.Limits
use tlsrpt_digest.Mailparse.Limits.{total}
use tlsrpt_digest.Mailparse.Nesting
use tlsrpt_digest.Mailparse.Nesting.{nesting}
use tlsrpt_digest.Store.Types.{open_read_write, Disk, parsed}
use tlsrpt_digest.Store.Io.{World, Outcome, done, failed, crashed, syscall}
use tlsrpt_digest.Cmd.Attachments.{GoLibrary}
use tlsrpt_digest.Cmd.Session.{Event}
use tlsrpt_digest.Cmd.Fetch.{MessageMeta, FetchRunner, BootContext}
use tlsrpt_digest.Cmd.Fetch.Command.{run_fetch}
use tlsrpt_digest.Cmd.Fetch.Safety
use tlsrpt_digest.Cmd.Fetch.Safety.{start, all_quiet}
use tlsrpt_digest.Cmd.Fetch.Marking
use tlsrpt_digest.Cmd.Fetch.Complete
use tlsrpt_digest.Cmd.Fetch.Complete.{Completed}
use tlsrpt_digest.Cmd.Session.{goes}
use tlsrpt_digest.Cmd.Recover.{exit_ok}
use tlsrpt_digest.Base.Time.{year_month}
use tlsrpt_digest.Store.Emails.Load.{internal_date_from_email_path}
use tlsrpt_digest.Cmd.Reprocess.{Outside, ReprocessContext}
use tlsrpt_digest.Cmd.Reprocess.Complete as Reprocess
use tlsrpt_digest.Examples.{config}
use tlsrpt_digest.Cmd.Summary.{SummaryContext, SummaryRun, run_summary}
use tlsrpt_digest.Cmd.Summary.Period
use tlsrpt_digest.Cmd.Summary.Period.{Sound}

abbrev morning : Time
morning = zero_time + 738000 * day

abbrev weekly : Report
weekly = record {
  organization_name = "Example";
  report_id = "r1";
  date_range = record { start_datetime = morning; end_datetime = morning + day };
  policies = [];
}

abbrev decoders : Decoders
decoders = record { unmarshal = λ bytes. some (raw_of weekly); gunzip = λ limit bytes. some bytes }

abbrev encoding : Reading
encoding = chunk (7 ∷ []) (chunk (8 ∷ []) eof)

abbrev leaf : Part
leaf =
    part
      (record {
        content_type = media "application/tlsrpt+gzip" (("name", "r.json.gz") ∷ []);
        disposition = "";
        disposition_params = [];
        transfer_encoding = "base64";
      })
      eof encoding end

abbrev mail : Part
mail =
    part
      (record {
        content_type = media "multipart/mixed" (("boundary", "b") ∷ []);
        disposition = "";
        disposition_params = [];
        transfer_encoding = "";
      })
      eof eof (then_part leaf (then_part leaf end))

abbrev attached : Attachment
attached = record {
  filename = "r.json.gz";
  content_type = "application/tlsrpt+gzip";
  content = 7 ∷ 8 ∷ [];
}

abbrev same_header : String → Option String
same_header s = some s

mail_extracted :
    extract_attachments same_header (pos 10) mail ≡ attachments (attached ∷ attached ∷ [])
unfolding extract_attachments
mail_extracted = refl

extract_attachments-within_limit_example : total (attached ∷ attached ∷ []) ≤ 10
extract_attachments-within_limit_example =
    Limits.extract_attachments-within_limit same_header 10 mail (attached ∷ attached ∷ [])
      (omega arith) mail_extracted

extract_attachments-refuses_deep_example : nesting mail ≤ suc max_multipart_depth
extract_attachments-refuses_deep_example =
    Nesting.extract_attachments-refuses_deep same_header (pos 10) mail (attached ∷ attached ∷ [])
      mail_extracted

parse-Encodes_example :
    (parse decoders gzip (7 ∷ 8 ∷ []) ≡ report weekly) ↔ Encodes decoders gzip (7 ∷ 8 ∷ []) weekly
parse-Encodes_example = Soundness.parse-Encodes decoders gzip (7 ∷ 8 ∷ []) weekly

abbrev library : GoLibrary
library = record {
  to_lower = λ s. s;
  decode_header = same_header;
  read_message = λ raw. some mail;
  decoders = decoders;
}

abbrev message : MessageMeta
message = record { uid = 7; size = 2; date = morning; seen = false; message_id = "<7@example>" }

abbrev runner : FetchRunner
runner = record {
  server = record {
    connect = none;
    fetch_meta = λ since. some (record { messages = message ∷ []; uid_validity = 5 });
    download = λ uids. some (λ uid. some (1 ∷ 2 ∷ []));
    mark_seen = λ uids. none;
  };
  credentials = record { username = "u"; password = "p" };
  now = morning + 3 * day;
  flush = λ trace. true;
  lib = library;
}

abbrev boot_with : Bool → BootContext
boot_with dry = record {
  store = record {
    identity = record { host = "mail"; port = 993; mailbox = "INBOX" };
    mode = open_read_write;
    now = morning + 3 * day;
  };
  config = config;
  options = record { dry_run = dry; since = none };
}

abbrev empty_disk : Disk
empty_disk = record {
  data_file = none;
  emails = none;
  sentinel = none;
  manifest = none;
  staging = none;
  guard_file = true;
}

abbrev fresh : World
fresh = record { disk = empty_disk; faults = [] }

run_fetch-dry_run_example :
    let s = (run_fetch runner (boot_with true) (start fresh)).1 in
    (s.world.disk ≡ empty_disk) × (all_quiet s.trace ≡ true)
run_fetch-dry_run_example = Safety.run_fetch-dry_run runner (boot_with true) refl fresh

-- the messages of the last marking in a trace
abbrev marked_in : List Event → List ℕ
marked_in [] = []
marked_in (Event.asked_seen uids ∷ es) = uids
marked_in (e ∷ es) = marked_in es

run_marks : marked_in (run_fetch runner (boot_with false) (start fresh)).1.trace ≡ 7 ∷ []
unfolding run_fetch syscall
run_marks = refl

run_ends : (run_fetch runner (boot_with false) (start fresh)).0 ≡ goes exit_ok
unfolding run_fetch syscall
run_ends = refl

run_fetch-Completed_example :
    Completed
      (some (record { messages = message ∷ []; uid_validity = 5 }))
      (run_fetch runner (boot_with false) (start fresh)).1
run_fetch-Completed_example =
    Complete.run_fetch-Completed runner (boot_with false) fresh refl run_ends

abbrev outside : Outside
outside = record { flush = λ trace. true; lib = library; walk = λ paths. paths }

abbrev reprocess_context : ReprocessContext
reprocess_context = record {
  store = (boot_with false).store;
  config = config;
  reprocess_notify = true;
}

abbrev with_mail : World
with_mail = record {
  disk = record empty_disk {
    emails = some (
        record { path = record { uid_validity = 5; month = 202401; uid = 7 }; raw = 1 ∷ 2 ∷ [] }
        ∷ []);
  };
  faults = [];
}

abbrev month_in : Option Time → ℕ
month_in none = 0
month_in (some t) = year_month t

month_of_path :
    month_in (internal_date_from_email_path (record { uid_validity = 5; month = 202401; uid = 7 }))
    ≡ 202401
unfolding internal_date_from_email_path year_month
month_of_path = refl

abbrev summary_context : SummaryContext
summary_context = record {
  config = config;
  window = some (pos 7);
  now = morning + 3 * day;
  can_notify = true;
  cancelled = λ n. false;
}

abbrev reported : World
reported = record {
  disk = record empty_disk {
    data_file = some (parsed (record { version = 1; reports = weekly ∷ []; emails = [] }));
  };
  faults = [];
}

-- how many events the run has left
abbrev event_count : Outcome SummaryRun → ℕ
event_count (done r) = length r.trace
event_count (failed e) = 0
event_count crashed = 0

summary_is_sent : event_count (run_summary summary_context reported).0 ≡ 2
unfolding run_summary syscall
summary_is_sent = refl

run_summary-Sound_example :
    ((run_summary summary_context reported).1.disk ≡ reported.disk)
    × Sound summary_context (run_summary summary_context reported).0
run_summary-Sound_example = Period.run_summary-Sound summary_context reported
