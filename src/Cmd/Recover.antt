-- ===== src/Cmd/Recover.antt =====
-- cmd/tlsrpt-digest/recover.go, and recoverStoreOpenMode of main.go. A failed procedure is a run
-- that returns its error; the text that the command prints is left out.
pub mod Crash
pub mod Convergence
use tlsrpt_digest.Base.{ℕ, Bool, true, false, Option, none, some, ◌&&◌, if◌then◌else◌}
use tlsrpt_digest.Base.Time.{Time}
use tlsrpt_digest.Store.Types.{
  OpenMode, open_read_write, open_recover_reset, ImapIdentity, RecoveryState,
}
use tlsrpt_digest.Store.Io.{M, pure, ◌>>=◌, ◌>>◌}
use tlsrpt_digest.Store.Sentinel.{FileStore, load_recovery_required}
use tlsrpt_digest.Store.Recovery.{apply_recovery, reset_for_recovery, has_pending_reset}
use tlsrpt_digest.Store.Open.{open_store}

pub data ExitCode : Type 0 where
  exit_ok exit_error : ExitCode

-- the values of --mode; `status` is the empty one
pub data RecoverMode : Type 0 where
  status keep_old discard_old : RecoverMode

pub record RecoverOptions : Type 0 where
  pub mode : RecoverMode
  pub confirmed : Bool

abbrev pub is_discard_old : RecoverMode → Bool
is_discard_old discard_old = true
is_discard_old _ = false

unfoldable pub recover_store_open_mode : RecoverOptions → OpenMode
recover_store_open_mode o =
    if is_discard_old o.mode && o.confirmed then open_recover_reset else open_read_write

unfoldable pub run_keep_old : FileStore → ℕ → M ExitCode
unfolding apply_recovery pure ◌>>=◌
run_keep_old st curr = do apply_recovery st curr; pure exit_ok

unfoldable pub run_discard_old : FileStore → ℕ → Bool → M ExitCode
unfolding reset_for_recovery pure ◌>>=◌
run_discard_old st curr confirmed =
    if confirmed then (do reset_for_recovery st curr; pure exit_ok) else pure exit_error

abbrev execute_mode : FileStore → RecoverOptions → RecoverMode → ℕ → Bool → M ExitCode
execute_mode st o keep_old curr pending = if pending then pure exit_error else run_keep_old st curr
execute_mode st o discard_old curr pending = run_discard_old st curr o.confirmed
execute_mode st o status curr pending = pure exit_error

-- finalize a reset whose sentinel is committed
unfoldable pub handle_no_recovery_required : FileStore → RecoverOptions → M ExitCode
unfolding has_pending_reset reset_for_recovery pure ◌>>=◌
handle_no_recovery_required st o = do
  pending ← has_pending_reset
  if pending && (is_discard_old o.mode && o.confirmed)
      then (do reset_for_recovery st 0; pure exit_ok)
      else pure exit_error

abbrev on_recovery : FileStore → RecoverOptions → Option RecoveryState → M ExitCode
on_recovery st o none = handle_no_recovery_required st o
on_recovery st o (some r) = do
  pending ← has_pending_reset
  execute_mode st o o.mode r.curr_uid_validity pending

unfoldable pub run_recover : FileStore → RecoverOptions → M ExitCode
unfolding load_recovery_required has_pending_reset run_keep_old run_discard_old
    handle_no_recovery_required pure ◌>>=◌
run_recover st o = do r ← load_recovery_required; on_recovery st o r

-- the store is opened as `run` and Bootstrap open it, then the command runs
unfoldable pub recover_command : ImapIdentity → Time → RecoverOptions → M ExitCode
unfolding recover_store_open_mode open_store run_recover ◌>>=◌
recover_command identity now o = do
  st ← open_store identity (recover_store_open_mode o) now
  run_recover st o
