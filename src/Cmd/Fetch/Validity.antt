-- ===== src/Cmd/Fetch/Validity.antt =====
-- cmd/tlsrpt-digest/fetch.go: the check of UIDVALIDITY.
use tlsrpt_digest.Base.{ℕ, ◌==◌, Option, none, some, ◌⊎◌, inl, inr, if◌then◌else◌}
use tlsrpt_digest.Store.Types.{StoreError}
use tlsrpt_digest.Store.Sentinel.{load_uid_validity, save_uid_validity, save_recovery_required}
use tlsrpt_digest.Notify.Kinds.{store_corruption, uid_validity_changed}
use tlsrpt_digest.Cmd.Session.{Run, return, stop, call, ◌>>=◌, ◌>>◌}
use tlsrpt_digest.Cmd.Fetch.{FetchRunner, BootContext, notify_fetch_system_error, fail_with}

abbrev pub saved_or_corrupt : FetchRunner → StoreError ⊎ Unit {0} → Run Unit
saved_or_corrupt r (inl e) = fail_with r store_corruption
saved_or_corrupt r (inr _) = return tt

abbrev pub check_uid : FetchRunner → BootContext → ℕ → Option ℕ → Run Unit
check_uid r boot current none =
    if boot.options.dry_run
    then return tt
    else call (save_uid_validity boot.store current) >>= saved_or_corrupt r
check_uid r boot current (some stored) =
    if stored == current
    then return tt
    else if boot.options.dry_run
    then fail_with r uid_validity_changed
    else call (save_recovery_required boot.store stored current r.now)
      >>= saved_or_corrupt r
      >> fail_with r uid_validity_changed

abbrev pub loaded_uid : FetchRunner → BootContext → ℕ → StoreError ⊎ Option ℕ → Run Unit
loaded_uid r boot current (inl e) = fail_with r store_corruption
loaded_uid r boot current (inr stored) = check_uid r boot current stored

unfoldable pub fetch_validate_uid : FetchRunner → BootContext → ℕ → Run Unit
unfolding notify_fetch_system_error load_uid_validity save_uid_validity save_recovery_required call
    return stop ◌>>=◌
fetch_validate_uid r boot current = do
  stored ← call load_uid_validity
  loaded_uid r boot current stored
