-- ===== src/Notify/Summary.antt =====
-- internal/notify/aggregate.go: the summary of the successful reports of a period. The map from an
-- organization to its sessions is a function; int64 additions wrap around. The context is a
-- parameter: whether it is done at its n-th check.
pub mod Totals
use tlsrpt_digest.Base.{
  ℕ, zero, suc, Bool, true, false, not, ◌&&◌, String, str_eq, Option, none, some, ◌⊎◌, inl, inr,
  List, [], ◌∷◌, if◌then◌else◌,
}
use tlsrpt_digest.Base.Int.{ℤ, pos, ◌+ℤ◌, wrap64}
use tlsrpt_digest.Base.Time.{Time, before}
use tlsrpt_digest.Tlsrpt.{PolicyRecord, Report, has_failure}
use tlsrpt_digest.Store.Types.{StoreError}
use tlsrpt_digest.Store.Io.{M, pure, try_call, ◌>>=◌}
use tlsrpt_digest.Store.Reports.{get_all_reports}

pub record Summary : Type 0 where
  pub start : Time
  pub end : Time
  pub stats : String → Option ℤ
  pub report_count : ℕ

pub data SummaryError : Type 0 where
  context_done : SummaryError
  store_error : StoreError → SummaryError

unfoldable pub in_summary_period : Report → Time → Time → Bool
in_summary_period r start end =
    not (before r.date_range.end_datetime start) && before r.date_range.end_datetime end

abbrev pub sum_sessions : List PolicyRecord → ℤ → ℤ
sum_sessions [] total = total
sum_sessions (p ∷ ps) total =
    sum_sessions ps (wrap64 (total +ℤ p.summary.total_successful_session_count))

unfoldable pub successful_session_count : Report → ℤ
successful_session_count r = sum_sessions r.policies (pos 0)

-- a missing key reads as 0
abbrev pub or_zero : Option ℤ → ℤ
or_zero none = pos 0
or_zero (some n) = n

abbrev pub add_sessions : Report → Summary → Summary
add_sessions r s = record s {
  report_count = suc s.report_count;
  stats = λ org.
      if str_eq r.organization_name org
      then some (wrap64 (or_zero (s.stats org) +ℤ successful_session_count r))
      else s.stats org;
}

-- the body of the loop, after the check of the context
unfoldable pub summarize : Report → Summary → Summary
unfolding in_summary_period has_failure successful_session_count
summarize r s =
    if in_summary_period r s.start s.end then if has_failure r then s else add_sessions r s else s

-- the loop, where the next check of the context is the `i`-th
unfoldable pub summarize_all :
    (ℕ → Bool) → ℕ → List Report → Summary → Summary × Option SummaryError
unfolding summarize
summarize_all cancelled i [] s = (s, none)
summarize_all cancelled i (r ∷ rs) s = elim (cancelled i) [
  | true ↦ (s, some context_done)
  | false ↦ summarize_all cancelled (suc i) rs (summarize r s)
]

abbrev pub empty_summary : Time → Time → Summary
empty_summary start end = record { start = start; end = end; stats = λ _. none; report_count = 0 }

abbrev pub after_reports :
    (ℕ → Bool) → Summary → StoreError ⊎ (List Report) → M (Summary × Option SummaryError)
after_reports cancelled s (inl e) = pure (s, some (store_error e))
after_reports cancelled s (inr rs) = pure (summarize_all cancelled 1 rs s)

unfoldable pub generate_summary : (ℕ → Bool) → Time → Time → M (Summary × Option SummaryError)
unfolding try_call get_all_reports summarize_all pure ◌>>=◌
generate_summary cancelled start end =
    if cancelled 0
    then pure (empty_summary start end, some context_done)
    else (do r ← try_call get_all_reports; after_reports cancelled (empty_summary start end) r)
