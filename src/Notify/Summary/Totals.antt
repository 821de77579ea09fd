-- ===== src/Notify/Summary/Totals.antt =====
-- What GenerateSummary of internal/notify/aggregate.go adds up.
use tlsrpt_digest.Base.{
  ◌≡◌, refl, subst, sym, ap, ◌∙◌, ℕ, suc, ◌+◌, ltb, leb, ◌==◌, Bool, true, false, Bool-cases, inl,
  inr, not, ◌&&◌, ◌||◌, String, str_eq, Option, none, some, List, [], ◌∷◌, count, select,
  if◌then◌else◌, arith,
}
use tlsrpt_digest.Base.Int.{ℤ, pos, pos_part, ◌+ℤ◌, wrap64}
use tlsrpt_digest.Base.Wrap.{+ℤ_comm, +ℤ_assoc, +ℤ_zero, wrap64_left, wrap64_right}
use tlsrpt_digest.Base.Time.{Time}
use tlsrpt_digest.Tlsrpt.{PolicyRecord, Report, any_fails, has_failure}
use tlsrpt_digest.Store.Types.{DataFile, Disk}
use tlsrpt_digest.Store.Io.{done, pure, try_call, ◌>>=◌}
use tlsrpt_digest.Store.Reports.Files.{Holds, calm, get_all_reports_lem}
use tlsrpt_digest.Notify.Summary.{
  Summary, SummaryError, in_summary_period, sum_sessions, successful_session_count, or_zero,
  add_sessions, summarize, summarize_all, empty_summary, generate_summary,
}

-- no policy has a failed session
abbrev pub all_passed : List PolicyRecord → Bool
all_passed [] = true
all_passed (p ∷ ps) = (pos_part p.summary.total_failure_session_count == 0) && all_passed ps

-- the reports that count: they end in the period, and no policy of theirs failed
abbrev pub is_counted : Time → Time → Report → Bool
is_counted start end r =
    leb start r.date_range.end_datetime
    && (ltb r.date_range.end_datetime end && all_passed r.policies)

-- the successful sessions of policies
abbrev pub successes : List PolicyRecord → ℤ
successes [] = pos 0
successes (p ∷ ps) = p.summary.total_successful_session_count +ℤ successes ps

-- the successful sessions of the reports of an organization
abbrev pub total_of : String → List Report → ℤ
total_of org [] = pos 0
total_of org (r ∷ rs) =
    let rest = total_of org rs in
    if str_eq r.organization_name org then successes r.policies +ℤ rest else rest

abbrev pub is_reporting : String → List Report → Bool
is_reporting org [] = false
is_reporting org (r ∷ rs) = str_eq r.organization_name org || is_reporting org rs

-- the entry of an organization in the statistics of reports: a value of int64, or none
abbrev pub entry_of : String → List Report → Option ℤ
entry_of org rs = if is_reporting org rs then some (wrap64 (total_of org rs)) else none

-- the entry that the loop makes
abbrev sessions_of : String → List Report → Option ℤ → Option ℤ
sessions_of org [] total = total
sessions_of org (r ∷ rs) total = sessions_of org rs (
    if str_eq r.organization_name org
    then some (wrap64 (or_zero total +ℤ successful_session_count r))
    else total)

sum_sessions_lem :
    (ps : List PolicyRecord) (t : ℤ) → sum_sessions ps (wrap64 t) ≡ wrap64 (t +ℤ successes ps)
sum_sessions_lem [] t = ap wrap64 (sym (+ℤ_zero t))
sum_sessions_lem (p ∷ ps) t =
    let n = p.summary.total_successful_session_count in
    ap (sum_sessions ps) (wrap64_left t n)
    ∙ sum_sessions_lem ps (t +ℤ n)
    ∙ ap wrap64 (+ℤ_assoc t n (successes ps))

zero_wraps : pos 0 ≡ wrap64 (pos 0)
unfolding wrap64
zero_wraps = refl

successful_session_count_lem :
    (r : Report) → successful_session_count r ≡ wrap64 (successes r.policies)
unfolding successful_session_count
successful_session_count_lem r =
    ap (sum_sessions r.policies) zero_wraps
    ∙ sum_sessions_lem r.policies (pos 0)
    ∙ ap wrap64 (+ℤ_comm (pos 0) (successes r.policies) ∙ +ℤ_zero (successes r.policies))

-- one more report in the total of its organization
added :
    (t : ℤ) (r : Report)
    → wrap64 (wrap64 t +ℤ successful_session_count r) ≡ wrap64 (t +ℤ successes r.policies)
added t r =
    wrap64_left t (successful_session_count r)
    ∙ ap (λ c. wrap64 (t +ℤ c)) (successful_session_count_lem r)
    ∙ wrap64_right t (successes r.policies)

sessions_from :
    (org : String) (rs : List Report) (t : ℤ)
    → sessions_of org rs (some (wrap64 t)) ≡ some (wrap64 (t +ℤ total_of org rs))
sessions_from org [] t = ap (λ x. some (wrap64 x)) (sym (+ℤ_zero t))
sessions_from org (r ∷ rs) t = elim (Bool-cases (str_eq r.organization_name org)) [
  | inl e ↦
      let next = ap (λ x. sessions_of org rs (some x)) (added t r) in
      let sum = +ℤ_assoc t (successes r.policies) (total_of org rs) in
      rw e (next ∙ sessions_from org rs (t +ℤ successes r.policies) ∙ ap (λ x. some (wrap64 x)) sum)
  | inr e ↦ rw e (sessions_from org rs t)
]

sessions_of-entry_of : (org : String) (rs : List Report) → sessions_of org rs none ≡ entry_of org rs
sessions_of-entry_of org [] = refl
sessions_of-entry_of org (r ∷ rs) = elim (Bool-cases (str_eq r.organization_name org)) [
  | inl e ↦
      let first : wrap64 (pos 0 +ℤ successful_session_count r) ≡ wrap64 (successes r.policies) =
        ap wrap64 (
          +ℤ_comm (pos 0) (successful_session_count r)
          ∙ +ℤ_zero (successful_session_count r)
          ∙ successful_session_count_lem r)
        ∙ twice (successes r.policies) in
      rw e
        (ap (λ x. sessions_of org rs (some x)) first ∙ sessions_from org rs (successes r.policies))
  | inr e ↦ rw e (sessions_of-entry_of org rs)
]
  where
    twice : (a : ℤ) → wrap64 (wrap64 a) ≡ wrap64 a
    twice a = ap wrap64 (sym (+ℤ_zero (wrap64 a))) ∙ wrap64_left a (pos 0) ∙ ap wrap64 (+ℤ_zero a)

any_fails_lem : (ps : List PolicyRecord) → any_fails ps ≡ not (all_passed ps)
any_fails_lem [] = refl
any_fails_lem (p ∷ ps) = ground (arith, any_fails_lem ps)

record Adds (start end : Time) (rs : List Report) (s : Summary)
    (out : Summary × Option SummaryError) : Type 0 where
  fine : out.1 ≡ none
  counted : out.0.report_count ≡ s.report_count + count (is_counted start end) rs
  totals :
      (org : String)
      → out.0.stats org ≡ sessions_of org (select (is_counted start end) rs) (s.stats org)

-- one turn of the loop
summarize_lem :
    (r : Report) (s : Summary)
    → summarize r s ≡ (if is_counted s.start s.end r then add_sessions r s else s)
unfolding summarize in_summary_period has_failure
summarize_lem r s = ground (arith, any_fails_lem r.policies)

turn :
    (cancelled : ℕ → Bool) (i : ℕ) (r : Report) (rs : List Report) (s s' : Summary)
    → cancelled i ≡ false
    → summarize r s ≡ s'
    → summarize_all cancelled i (r ∷ rs) s ≡ summarize_all cancelled (suc i) rs s'
unfolding summarize_all
turn cancelled i r rs s s' go e = cc (go, e)

summarize_all_lem :
    (cancelled : ℕ → Bool) (i : ℕ) (rs : List Report) (s : Summary)
    → ((n : ℕ) → cancelled n ≡ false)
    → Adds s.start s.end rs s (summarize_all cancelled i rs s)
unfolding summarize_all
summarize_all_lem cancelled i [] s go = record {
  fine = refl;
  counted = omega arith;
  totals = λ org. refl;
}
summarize_all_lem cancelled i (r ∷ rs) s go = elim (Bool-cases (is_counted s.start s.end r)) [
  | inl e ↦
      let step : summarize r s ≡ add_sessions r s = ground (arith, summarize_lem r s) in
      let k = summarize_all_lem cancelled (suc i) rs (add_sessions r s) go in
      subst (Adds s.start s.end (r ∷ rs) s) (sym (turn cancelled i r rs s _ (go i) step)) (record {
        fine = k.fine;
        counted = ground (arith, k.counted);
        totals = λ org. rw e (k.totals org);
      })
  | inr e ↦
      let step : summarize r s ≡ s = ground (arith, summarize_lem r s) in
      let k = summarize_all_lem cancelled (suc i) rs s go in
      subst (Adds s.start s.end (r ∷ rs) s) (sym (turn cancelled i r rs s _ (go i) step)) (record {
        fine = k.fine;
        counted = ground (arith, k.counted);
        totals = λ org. rw e (k.totals org);
      })
]

-- The data file is absent or can be read, and the context is never done: GenerateSummary succeeds and
-- changes nothing. It counts the reports whose date range ends at the start of the period or later
-- and before its end, and of whose policies none has a failed session. The entry of an organization
-- is the int64 to which the sum of the successful sessions of all policies of its reports among
-- these wraps around; an organization without such a report has no entry.
pub generate_summary-adds :
    (cancelled : ℕ → Bool) (start end : Time) (d : Disk) (df : DataFile)
    → ((n : ℕ) → cancelled n ≡ false)
    → Holds d df
    → (s : Summary) × (generate_summary cancelled start end (calm d) ≡ (done (s, none), calm d))
      × (s.report_count ≡ count (is_counted start end) df.reports)
      × ((org : String) → s.stats org ≡ entry_of org (select (is_counted start end) df.reports))
unfolding generate_summary try_call pure ◌>>=◌
generate_summary-adds cancelled start end d df go h =
    let k = summarize_all_lem cancelled 1 df.reports (empty_summary start end) go in
    (
      (summarize_all cancelled 1 df.reports (empty_summary start end)).0,
      ground (arith, go 0, get_all_reports_lem d df h, k.fine),
      omega (arith, k.counted),
      λ org. k.totals org ∙ sessions_of-entry_of org (select (is_counted start end) df.reports),
    )
