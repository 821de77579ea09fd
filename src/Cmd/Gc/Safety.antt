-- ===== src/Cmd/Gc/Safety.antt =====
-- What cmd/tlsrpt-digest/gc.go never does: a dry run deletes nothing, and nor does a run that finds
-- a recovery asked for.
use tlsrpt_digest.Base.{
  ◌≡◌, refl, Bool, true, false, Option, none, some, ◌⊎◌, inl, inr, List, [], ◌∷◌, ◌==◌, arith,
  if_both, ℕ,
}
use tlsrpt_digest.Base.Time.{Time, is_zero}
use tlsrpt_digest.Store.Types.{
  StoreError, File, parsed, garbage, Sentinel, sentinel_format_version, RecoveryState, Disk,
}
use tlsrpt_digest.Store.Io.{try_call, M, World, Outcome, done, failed, crashed}
use tlsrpt_digest.Store.Sentinel.{FileStore, load_sentinel, decode_sentinel, load_recovery_required}
use tlsrpt_digest.Store.Reports.{count_reports_before}
use tlsrpt_digest.Store.Emails.{count_emails_before}
use tlsrpt_digest.Store.Untouched.{
  Untouched, Returns, Any, Untouched-pure, Untouched-throw, Untouched-look, Untouched-bind,
  Untouched-if,
}
use tlsrpt_digest.Store.Reports.Reads.{load_data_file-Untouched}
use tlsrpt_digest.Config.{Config}
use tlsrpt_digest.Cmd.Gc.{
  MailServer, GcOptions, Credentials, Event, asked_delete, GcRun, run_gc, run_enabled, run_dry_run,
  search_imap_older_than, imap_summary, after_search, preview, after_report_count,
  after_email_count, after_sentinel, are_missing,
}

-- no message of the server is asked to be deleted
abbrev pub no_delete : List Event → Bool
no_delete [] = true
no_delete (asked_delete t ∷ es) = false
no_delete (e ∷ es) = no_delete es

-- what a run left in its trace; a run that was broken off has no record
abbrev pub trace_of : Outcome GcRun → List Event
trace_of (done r) = r.trace
trace_of (failed e) = []
trace_of crashed = []

abbrev Harmless : GcRun → Type 0
Harmless r = no_delete r.trace ≡ true

Harmless-trace_of : (r : Outcome GcRun) → Returns Harmless r → no_delete (trace_of r) ≡ true
Harmless-trace_of (done run) h = h
Harmless-trace_of (failed e) h = refl
Harmless-trace_of crashed h = refl

pub decoded_sentinel : (f : Option (File Sentinel)) → Untouched Any (decode_sentinel f)
decoded_sentinel none = Untouched-pure _ tt
decoded_sentinel (some garbage) = Untouched-throw _
decoded_sentinel (some (parsed s)) =
    Untouched-if (s.format_version == sentinel_format_version) (Untouched-pure _ tt)
      (Untouched-throw _)

pub load_recovery_required-Untouched : Untouched Any load_recovery_required
unfolding load_recovery_required load_sentinel
load_recovery_required-Untouched =
    Untouched-bind Any _ _
      (Untouched-bind Any _ _ (Untouched-look (λ d. d.sentinel)) (λ f _. decoded_sentinel f))
      (λ s _. Untouched-pure _ tt)

count_reports_before-Untouched : (t : Time) → Untouched Any (count_reports_before t)
unfolding count_reports_before
count_reports_before-Untouched t =
    Untouched-bind Any _ _ load_data_file-Untouched (λ df _. Untouched-pure _ tt)

count_emails_before-Untouched : (t : Time) → Untouched Any (count_emails_before t)
unfolding count_emails_before
count_emails_before-Untouched t =
    Untouched-if (is_zero t) (Untouched-pure _ tt)
      (Untouched-bind Any _ _ load_data_file-Untouched (λ df _. Untouched-pure _ tt))

tried :
    {A : Type 0} (d : Disk) (r : Outcome A) (w : World)
    → w.disk ≡ d
    → let s = try_call (λ _. (r, w)) w in (s.1.disk ≡ d) × Returns Any s.0
unfolding try_call
tried d (done a) w e = (e, tt)
tried d (failed x) w e = (e, tt)
tried d crashed w e = (e, tt)

pub try_call-Untouched : {A : Type 0} {m : M A} → Untouched Any m → Untouched Any (try_call m)
unfolding try_call
try_call-Untouched {m} t = record { at = λ w. tried w.disk (m w).0 (m w).1 (t.at w).0 }

summary_harmless :
    (uids : List ℕ) (rest : List Event) → no_delete (imap_summary uids ∷ rest) ≡ no_delete rest
unfolding imap_summary
summary_harmless uids rest = ground arith

search-Harmless :
    (server : MailServer) (t : Time) → Harmless (after_search (search_imap_older_than server t))
unfolding search_imap_older_than imap_summary
search-Harmless server t = ground arith

preview-Harmless :
    (server : MailServer) (creds : Credentials) (enabled : Bool) (t : Time)
    → Harmless (preview server creds enabled t)
unfolding imap_summary
preview-Harmless server creds enabled t =
    if_both Harmless enabled
      (λ _. if_both Harmless (are_missing creds) (λ _. refl) (λ _. search-Harmless server t))
      (λ _. refl)

module _ (server : MailServer) (creds : Credentials) where
  counted_emails :
      (enabled : Bool) (rc ec ic : Time) (reports : ℕ) (x : StoreError ⊎ ℕ)
      → Untouched Harmless (after_email_count server creds enabled rc ec ic reports x)
  counted_emails enabled rc ec ic reports (inl e) = Untouched-pure _ refl
  counted_emails enabled rc ec ic reports (inr n) =
      Untouched-pure _ (preview-Harmless server creds enabled ic)

  counted_reports :
      (enabled : Bool) (rc ec ic : Time) (x : StoreError ⊎ ℕ)
      → Untouched Harmless (after_report_count server creds enabled rc ec ic x)
  counted_reports enabled rc ec ic (inl e) = Untouched-pure _ refl
  counted_reports enabled rc ec ic (inr n) =
      Untouched-bind Any _ _ (try_call-Untouched (count_emails_before-Untouched ec))
        (λ x _. counted_emails enabled rc ec ic n x)

  run_dry_run-Untouched :
      (enabled : Bool) (rc ec ic : Time)
      → Untouched Harmless (run_dry_run server creds enabled rc ec ic)
  unfolding run_dry_run
  run_dry_run-Untouched enabled rc ec ic =
      Untouched-bind Any _ _ (try_call-Untouched (count_reports_before-Untouched rc))
        (λ x _. counted_reports enabled rc ec ic x)

  module _ (st : FileStore) (cfg : Config) (o : GcOptions) (dry : o.dry_run ≡ true) where
    run_enabled-Untouched : Untouched Harmless (run_enabled st server creds cfg o)
    unfolding run_enabled
    run_enabled-Untouched =
        if_both (Untouched Harmless) o.dry_run (λ _. run_dry_run-Untouched _ _ _ _)
          (λ no. absurd (ground arith))

    checked :
        (x : StoreError ⊎ (Option RecoveryState))
        → Untouched Harmless (after_sentinel st server creds cfg o x)
    checked (inl e) = Untouched-pure _ refl
    checked (inr (some r)) = Untouched-pure _ refl
    checked (inr none) = run_enabled-Untouched

    run_gc-Untouched : Untouched Harmless (run_gc st server creds cfg o)
    unfolding run_gc
    run_gc-Untouched =
        Untouched-bind Any _ _ (try_call-Untouched load_recovery_required-Untouched)
          (λ x _. checked x)

-- A gc run with --dry-run, on any disk, whatever system calls fail or break it off, and whatever the
-- mail server answers, leaves every file of the store as it was, and if it ends, it has not asked
-- the server to delete messages.
pub run_gc-dry_run :
    (st : FileStore) (server : MailServer) (creds : Credentials) (cfg : Config) (o : GcOptions)
    → o.dry_run ≡ true
    → (w : World)
    → let (r, w') = run_gc st server creds cfg o w in
      (w'.disk ≡ w.disk) × (no_delete (trace_of r) ≡ true)
run_gc-dry_run st server creds cfg o dry w =
    let t = (run_gc-Untouched server creds st cfg o dry).at w in
    (t.0, Harmless-trace_of (run_gc st server creds cfg o w).0 t.1)
