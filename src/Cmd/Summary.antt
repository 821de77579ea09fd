-- ===== src/Cmd/Summary.antt =====
-- cmd/tlsrpt-digest/summary.go: the summary of the period that ends with yesterday. The notifier is a
-- parameter, which can be built or not; what fails in it is only logged. CheckRecoveryRequired is that
-- of internal/store/recovery.go, for the guard that the start of the program acquires.
pub mod Period
use tlsrpt_digest.Base.{
  ℕ, ◌==◌, Bool, true, false, Option, none, some, ◌⊎◌, inl, inr, List, [], ◌∷◌, if◌then◌else◌,
}
use tlsrpt_digest.Base.Int.{ℤ}
use tlsrpt_digest.Base.Time.{Time}
use tlsrpt_digest.Config.{Config}
use tlsrpt_digest.Store.Types.{StoreError, RecoveryState, Sentinel}
use tlsrpt_digest.Store.Io.{M, pure, try_call, ◌>>=◌}
use tlsrpt_digest.Store.Sentinel.{load_sentinel}
use tlsrpt_digest.Notify.Kinds.{SystemErrorKind, recovery_required}
use tlsrpt_digest.Notify.Summary.{Summary, SummaryError, generate_summary}
use tlsrpt_digest.Cmd.Duration.{utc_day_start, cutoff}
use tlsrpt_digest.Cmd.Recover.{ExitCode, exit_ok, exit_error}

pub data SummaryEvent : Type 0 where
  notified : SystemErrorKind → SummaryEvent
  logged : Summary → SummaryEvent
  flushed : SummaryEvent

-- a run of the command: its exit code and what it notified, in order
pub record SummaryRun : Type 0 where
  pub exit : ExitCode
  pub trace : List SummaryEvent

-- the value of --window, in days, the time, whether the notifier can be built, and whether the context
-- is done at its n-th check
pub record SummaryContext : Type 0 where
  pub config : Config
  pub window : Option ℤ
  pub now : Time
  pub can_notify : Bool
  pub cancelled : ℕ → Bool

abbrev pub is_required : Option RecoveryState → Bool
is_required none = false
is_required (some state) = true

abbrev pub required_in : Option Sentinel → Bool
required_in none = false
required_in (some s) = is_required s.recovery_required

unfoldable pub check_recovery_required : M Bool
unfolding load_sentinel pure ◌>>=◌
check_recovery_required = do s ← load_sentinel; pure (required_in s)

unfoldable pub summary_since : Option ℤ → ℤ → Time → Time
unfolding cutoff
summary_since (some days) window_days now = cutoff days now
summary_since none window_days now = cutoff window_days now

abbrev pub ended : ExitCode → List SummaryEvent → SummaryRun
ended exit trace = record { exit = exit; trace = trace }

unfoldable pub log_summary_system_error : SystemErrorKind → List SummaryEvent
log_summary_system_error kind = notified kind ∷ flushed ∷ []

abbrev pub send : SummaryContext → Summary → SummaryRun
send boot s =
    if s.report_count == 0
    then ended exit_ok []
    else if boot.can_notify
    then ended exit_ok (logged s ∷ flushed ∷ [])
    else ended exit_error []

abbrev pub generated : SummaryContext → Summary × Option SummaryError → SummaryRun
generated boot (s, some e) = ended exit_error []
generated boot (s, none) = send boot s

unfoldable pub aggregate : SummaryContext → M SummaryRun
unfolding generate_summary summary_since utc_day_start pure ◌>>=◌
aggregate boot = do
  r ←
      generate_summary boot.cancelled (summary_since boot.window boot.config.window_days boot.now)
        (utc_day_start boot.now)
  pure (generated boot r)

abbrev pub refuse : SummaryContext → SummaryRun
refuse boot =
    if boot.can_notify
    then ended exit_error (log_summary_system_error recovery_required)
    else ended exit_error []

abbrev pub checked : SummaryContext → StoreError ⊎ Bool → M SummaryRun
checked boot (inl e) = pure (ended exit_error [])
checked boot (inr found) = if found then pure (refuse boot) else aggregate boot

-- `Run`
unfoldable pub run_summary : SummaryContext → M SummaryRun
unfolding check_recovery_required aggregate log_summary_system_error try_call pure ◌>>=◌
run_summary boot = do found ← try_call check_recovery_required; checked boot found
