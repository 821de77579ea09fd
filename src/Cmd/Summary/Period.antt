-- ===== src/Cmd/Summary/Period.antt =====
-- What cmd/tlsrpt-digest/summary.go notifies, and what it leaves of the store.
use tlsrpt_digest.Base.{
  ◌≡◌, refl, ℕ, suc, ◌==◌, Bool, true, false, Option, none, some, ◌⊎◌, inl, inr, List, [], ◌∷◌,
  if_both,
}
use tlsrpt_digest.Base.Time.{Time}
use tlsrpt_digest.Tlsrpt.{Report, has_failure}
use tlsrpt_digest.Store.Types.{StoreError}
use tlsrpt_digest.Store.Io.{World, Outcome}
use tlsrpt_digest.Store.Sentinel.{load_sentinel}
use tlsrpt_digest.Store.Reports.{get_all_reports}
use tlsrpt_digest.Store.Reports.Reads.{load_data_file-Untouched}
use tlsrpt_digest.Store.Untouched.{
  Untouched, Any, Returns, Untouched-pure, Untouched-look, Untouched-bind, Untouched-if,
}
use tlsrpt_digest.Notify.Summary.{
  Summary, SummaryError, in_summary_period, summarize, summarize_all, empty_summary, after_reports,
  generate_summary,
}
use tlsrpt_digest.Cmd.Duration.{utc_day_start}
use tlsrpt_digest.Cmd.Gc.Safety.{decoded_sentinel, try_call-Untouched}
use tlsrpt_digest.Cmd.Summary.{
  SummaryEvent, logged, SummaryRun, SummaryContext, check_recovery_required, summary_since,
  log_summary_system_error, generated, aggregate, refuse, checked, run_summary,
}

-- a summary that has these bounds
abbrev Bounded : Time → Time → Summary → Type 0
Bounded start end s = (s.start ≡ start) × (s.end ≡ end)

summarize-Bounded :
    (start end : Time) (r : Report) (s : Summary)
    → Bounded start end s
    → Bounded start end (summarize r s)
unfolding summarize
summarize-Bounded start end r s h =
    if_both (Bounded start end) (in_summary_period r s.start s.end)
      (λ _. if_both (Bounded start end) (has_failure r) (λ _. h) (λ _. h)) (λ _. h)

either :
    (start end : Time) (b : Bool) (x y : Summary × Option SummaryError)
    → Bounded start end x.0
    → Bounded start end y.0
    → let r : Summary × Option SummaryError = elim b [ true ↦ x | false ↦ y ] in
      Bounded start end r.0
either start end true x y h k = h
either start end false x y h k = k

summarize_all-Bounded :
    (start end : Time) (cancelled : ℕ → Bool) (i : ℕ) (rs : List Report) (s : Summary)
    → Bounded start end s
    → Bounded start end (summarize_all cancelled i rs s).0
unfolding summarize_all
summarize_all-Bounded start end cancelled i [] s h = h
summarize_all-Bounded start end cancelled i (r ∷ rs) s h = either start end (cancelled i) _ _ h (
    summarize_all-Bounded start end cancelled (suc i) rs (summarize r s)
      (summarize-Bounded start end r s h))

module _ (start end : Time) (cancelled : ℕ → Bool) where
  abbrev Generated : Summary × Option SummaryError → Type 0
  Generated x = Bounded start end x.0

  after_reports-Untouched :
      (x : StoreError ⊎ List Report)
      → Untouched Generated (after_reports cancelled (empty_summary start end) x)
  after_reports-Untouched (inl e) = Untouched-pure _ (refl, refl)
  after_reports-Untouched (inr rs) =
      Untouched-pure _
        (summarize_all-Bounded start end cancelled 1 rs (empty_summary start end) (refl, refl))

  get_all_reports-Untouched : Untouched Any get_all_reports
  unfolding get_all_reports
  get_all_reports-Untouched =
      Untouched-bind Any _ _ load_data_file-Untouched (λ df _. Untouched-pure _ tt)

  generate_summary-Untouched : Untouched Generated (generate_summary cancelled start end)
  unfolding generate_summary
  generate_summary-Untouched = Untouched-if (cancelled 0) (Untouched-pure _ (refl, refl)) (
      Untouched-bind Any _ _ (try_call-Untouched get_all_reports-Untouched)
        (λ x _. after_reports-Untouched x))

module _ (boot : SummaryContext) where
  -- a summary has reports, and ends where the day of the run starts
  abbrev pub AllInPeriod : List SummaryEvent → Type 0
  AllInPeriod [] = Unit
  AllInPeriod (logged s ∷ es) =
      ((s.start ≡ summary_since boot.window boot.config.window_days boot.now)
        × (s.end ≡ utc_day_start boot.now)
        × ((s.report_count == 0) ≡ false))
      × AllInPeriod es
  AllInPeriod (e ∷ es) = AllInPeriod es

  -- what a run notified; one that was broken off has no record
  abbrev pub Sound : Outcome SummaryRun → Type 0
  Sound r = Returns (λ x. AllInPeriod x.trace) r

  abbrev SoundRun : SummaryRun → Type 0
  SoundRun r = AllInPeriod r.trace

  generated-Sound :
      (x : Summary × Option SummaryError)
      → Bounded
          (summary_since boot.window boot.config.window_days boot.now)
          (utc_day_start boot.now)
          x.0
      → SoundRun (generated boot x)
  generated-Sound (s, some e) h = tt
  generated-Sound (s, none) h =
      if_both SoundRun (s.report_count == 0) (λ _. tt)
        (λ e. if_both SoundRun boot.can_notify (λ _. ((h.0, h.1, e), tt)) (λ _. tt))

  aggregate-Untouched : Untouched SoundRun (aggregate boot)
  unfolding aggregate
  aggregate-Untouched =
      let start = summary_since boot.window boot.config.window_days boot.now in
      let end = utc_day_start boot.now in
      Untouched-bind (Generated start end boot.cancelled) _ _
        (generate_summary-Untouched start end boot.cancelled)
        (λ x h. Untouched-pure (generated boot x) (generated-Sound x h))

  refuse-Sound : SoundRun (refuse boot)
  unfolding log_summary_system_error
  refuse-Sound = if_both SoundRun boot.can_notify (λ _. tt) (λ _. tt)

  checked-Untouched : (x : StoreError ⊎ Bool) → Untouched SoundRun (checked boot x)
  checked-Untouched (inl e) = Untouched-pure _ tt
  checked-Untouched (inr found) =
      Untouched-if found (Untouched-pure _ refuse-Sound) aggregate-Untouched

check_recovery_required-Untouched : Untouched Any check_recovery_required
unfolding check_recovery_required load_sentinel
check_recovery_required-Untouched =
    Untouched-bind Any _ _
      (Untouched-bind Any _ _ (Untouched-look (λ d. d.sentinel)) (λ f _. decoded_sentinel f))
      (λ s _. Untouched-pure _ tt)

run_summary-Untouched : (boot : SummaryContext) → Untouched (SoundRun boot) (run_summary boot)
unfolding run_summary
run_summary-Untouched boot =
    Untouched-bind Any _ _ (try_call-Untouched check_recovery_required-Untouched)
      (λ x _. checked-Untouched boot x)

-- The summary command, on any disk and under any faults and crashes, leaves the store as it was; a
-- summary that it logs has at least one report, starts with the configured window, or the one of
-- --window, and ends where the UTC day of the run starts.
pub run_summary-Sound :
    (boot : SummaryContext) (w : World)
    → ((run_summary boot w).1.disk ≡ w.disk) × Sound boot (run_summary boot w).0
run_summary-Sound boot w = (run_summary-Untouched boot).at w
