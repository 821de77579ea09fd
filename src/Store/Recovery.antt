-- ===== src/Store/Recovery.antt =====
-- internal/store/recovery.go: the reset manifest, ResetForRecovery, and what Open cleans up.
pub mod Manifest
pub mod Crash
pub mod Guard
use tlsrpt_digest.Base.{
  ℕ, Bool, true, false, Option, none, some, ◌∷◌, not, ◌&&◌, ◌==◌, ltb, if◌then◌else◌,
}
use tlsrpt_digest.Store.Types.{
  open_recover_reset, RecoveryState, ResetManifest, Sentinel, File, parsed, garbage, Staging, Disk,
  pending_reset, recovery_required_missing, invalid_store_mode, unmarshal,
  recovery_uid_validity_mismatch, reset_manifest_version_mismatch, reset_manifest_phase_unknown,
  OpenMode,
}
use tlsrpt_digest.Store.Io.{M, pure, throw, syscall, effect, look, best_effort, strip, ◌>>=◌, ◌>>◌}
use tlsrpt_digest.Store.Sentinel.{
  FileStore, load_sentinel, save_sentinel, load_or_init_sentinel_for_write, with_guard_exclusive,
  load_recovery_required, unless_read_only,
}

abbrev pub reset_phase_manifest_written : ℕ
reset_phase_manifest_written = 1

abbrev pub reset_phase_committed : ℕ
reset_phase_committed = 4

abbrev pub reset_manifest_version : ℕ
reset_manifest_version = 1

unfoldable pub validate_manifest_phase : ℕ → M Unit
unfolding pure throw
validate_manifest_phase p =
    if not (p == reset_phase_manifest_written) && not (p == reset_phase_committed)
    then throw (reset_manifest_phase_unknown p)
    else pure tt

unfoldable pub write_reset_manifest : ResetManifest → M Unit
write_reset_manifest m = effect (λ d. record d { manifest = some (parsed m) })

abbrev decode_manifest : Option (File ResetManifest) → M (Option ResetManifest)
decode_manifest none = pure none
decode_manifest (some garbage) = throw unmarshal
decode_manifest (some (parsed m)) = pure (some m)

-- `none` is os.ErrNotExist, which each caller treats apart from the other errors
unfoldable pub read_reset_manifest : M (Option ResetManifest)
unfolding pure throw ◌>>=◌
read_reset_manifest = do f ← look (λ d. d.manifest); decode_manifest f

-- the two checks that follow a successful read
unfoldable pub validate_manifest : ResetManifest → M Unit
unfolding validate_manifest_phase throw
validate_manifest m =
    if m.version == reset_manifest_version
    then validate_manifest_phase m.phase
    else throw (reset_manifest_version_mismatch m.version)

unfoldable pub remove_all_staging : M Unit
remove_all_staging =
    syscall (λ x d. record d { staging = strip x d.staging })
      (λ d. some (tt, record d { staging = none }))

abbrev or_empty : Option Staging → Staging
or_empty none = record { data_file = none; emails = none }
or_empty (some s) = s

unfoldable pub mkdir_all_staging : M Unit
mkdir_all_staging = effect (λ d. record d { staging = some (or_empty d.staging) })

-- os.Remove where an absent file is no error
unfoldable pub remove_manifest : M Unit
remove_manifest = effect (λ d. record d { manifest = none })

abbrev pub manifest_at : ℕ → ℕ → ResetManifest
manifest_at curr phase = record {
  version = reset_manifest_version;
  curr_uid_validity = curr;
  phase = phase;
}

abbrev pub require_recovery : ℕ → Option RecoveryState → M Unit
require_recovery curr none = throw recovery_required_missing
require_recovery curr (some r) =
    if r.curr_uid_validity == curr
    then pure tt
    else throw (recovery_uid_validity_mismatch curr r.curr_uid_validity)

unfoldable pub init_reset_manifest : ℕ → M ResetManifest
unfolding load_recovery_required remove_all_staging mkdir_all_staging write_reset_manifest pure
    throw ◌>>=◌
init_reset_manifest curr = do
  r ← load_recovery_required
  require_recovery curr r
  remove_all_staging
  mkdir_all_staging
  write_reset_manifest (manifest_at curr reset_phase_manifest_written)
  pure (manifest_at curr reset_phase_manifest_written)

unfoldable pub remove_stale_committed_manifest : M Unit
unfolding remove_all_staging remove_manifest ◌>>=◌
remove_stale_committed_manifest = do remove_all_staging; remove_manifest

-- os.Rename(tlsrpt.json, staging/tlsrpt.json): refused without a staging directory
abbrev move_data_file : Disk → Option Staging → Option (Unit {0} × Disk)
move_data_file d none = none
move_data_file d (some s) =
    some (tt, record d { data_file = none; staging = some (record s { data_file = d.data_file }) })

abbrev pub exists {ℓ} : {A : Type ℓ} → Option A → Bool
exists none = false
exists (some _) = true

unfoldable pub stage_data_file : M Unit
unfolding pure ◌>>=◌
stage_data_file = do
  found ← look (λ d. exists d.data_file)
  if found then syscall (λ _ d. d) (λ d. move_data_file d d.staging) else pure tt

-- os.Rename(emails, staging/emails): refused where the target is a directory with entries
abbrev move_emails_dir : Disk → Option Staging → Option (Unit {0} × Disk)
move_emails_dir d none = none
move_emails_dir d (some s) = elim s.emails [
  | some (e ∷ es) ↦ none
  | _ ↦ some (tt, record d { emails = none; staging = some (record s { emails = d.emails }) })
]

unfoldable pub stage_emails_dir : M Unit
unfolding pure ◌>>=◌
stage_emails_dir = do
  found ← look (λ d. exists d.emails)
  if found then syscall (λ _ d. d) (λ d. move_emails_dir d d.staging) else pure tt

abbrev pub commit_in : ℕ → Sentinel → Sentinel
commit_in curr s = record s { uid_validity = some curr; recovery_required = none }

unfoldable pub commit_reset : FileStore → ℕ → M Unit
unfolding with_guard_exclusive load_or_init_sentinel_for_write save_sentinel write_reset_manifest
    ◌>>=◌
commit_reset st curr = with_guard_exclusive (do
  s ← load_or_init_sentinel_for_write st
  save_sentinel (commit_in curr s)
  write_reset_manifest (manifest_at curr reset_phase_committed))

unfoldable pub advance_reset_phases : FileStore → ℕ → M Unit
unfolding mkdir_all_staging stage_data_file stage_emails_dir commit_reset ◌>>=◌
advance_reset_phases st curr = do
  mkdir_all_staging
  stage_data_file
  stage_emails_dir
  commit_reset st curr

unfoldable pub execute_reset_from_manifest : FileStore → ResetManifest → M Unit
unfolding advance_reset_phases remove_all_staging remove_manifest best_effort ◌>>=◌
execute_reset_from_manifest st m = do
  advance_reset_phases st m.curr_uid_validity
  best_effort remove_all_staging
  remove_manifest

-- no manifest, or none left: validate and start
unfoldable pub fresh_start : FileStore → ℕ → M Unit
unfolding init_reset_manifest execute_reset_from_manifest ◌>>=◌
fresh_start st curr = do m ← init_reset_manifest curr; execute_reset_from_manifest st m

abbrev after_committed : FileStore → ℕ → Option RecoveryState → M Unit
after_committed st curr none = pure tt
after_committed st curr (some _) = fresh_start st curr

unfoldable pub resume_or_cleanup_committed : FileStore → ℕ → M Unit
unfolding remove_stale_committed_manifest load_recovery_required fresh_start pure ◌>>=◌
resume_or_cleanup_committed st curr = do
  remove_stale_committed_manifest
  r ← load_recovery_required
  after_committed st curr r

abbrev is_stale : ResetManifest → ℕ → Bool
is_stale m curr =
    ltb m.phase reset_phase_committed && (not (curr == 0) && not (m.curr_uid_validity == curr))

abbrev reset_from : FileStore → ℕ → Option ResetManifest → M Unit
reset_from st curr none = fresh_start st curr
reset_from st curr (some m) = do
  validate_manifest m
  if m.phase == reset_phase_committed
      then resume_or_cleanup_committed st curr
      else if is_stale m curr
      then (do remove_stale_committed_manifest; fresh_start st curr)
      else execute_reset_from_manifest st m

abbrev pub is_recover_reset : OpenMode → Bool
is_recover_reset open_recover_reset = true
is_recover_reset _ = false

unfoldable pub reset_for_recovery : FileStore → ℕ → M Unit
unfolding read_reset_manifest validate_manifest resume_or_cleanup_committed
    remove_stale_committed_manifest fresh_start execute_reset_from_manifest throw ◌>>=◌
reset_for_recovery st curr =
    if is_recover_reset st.mode
    then (do m ← read_reset_manifest; reset_from st curr m)
    else throw invalid_store_mode

abbrev pending_in : Option ResetManifest → M Bool
pending_in none = pure false
pending_in (some m) = do validate_manifest m; pure (not (m.phase == reset_phase_committed))

unfoldable pub has_pending_reset : M Bool
unfolding read_reset_manifest validate_manifest pure ◌>>=◌
has_pending_reset = do m ← read_reset_manifest; pending_in m

-- the guard against a reset in flight, then one write of both fields
unfoldable pub apply_recovery : FileStore → ℕ → M Unit
unfolding unless_read_only has_pending_reset with_guard_exclusive load_or_init_sentinel_for_write
    save_sentinel throw ◌>>=◌
apply_recovery st new = unless_read_only st (do
  pending ← has_pending_reset
  if pending
      then throw pending_reset
      else with_guard_exclusive
          (do s ← load_or_init_sentinel_for_write st; save_sentinel (commit_in new s)))

unfoldable pub remove_leftovers : M Unit
unfolding remove_all_staging remove_manifest best_effort ◌>>=◌
remove_leftovers = do best_effort remove_all_staging; best_effort remove_manifest

abbrev is_other_epoch : ResetManifest → RecoveryState → Bool
is_other_epoch m r = not (m.curr_uid_validity == r.curr_uid_validity)

abbrev cleanup_at : ResetManifest → Option Sentinel → M Unit
cleanup_at m none = throw pending_reset
cleanup_at m (some s) = elim s.recovery_required [
  | none ↦ remove_leftovers
  | some r ↦ if is_other_epoch m r then remove_leftovers else throw pending_reset
]

abbrev remove_orphan : Bool → M Unit
remove_orphan true = remove_all_staging
remove_orphan false = pure tt

abbrev cleanup_from : Option ResetManifest → M Unit
cleanup_from none = best_effort (do found ← look (λ d. exists d.staging); remove_orphan found)
cleanup_from (some m) = do validate_manifest m; s ← load_sentinel; cleanup_at m s

unfoldable pub cleanup_completed_reset : M Unit
unfolding read_reset_manifest validate_manifest load_sentinel remove_leftovers remove_all_staging
    best_effort pure throw ◌>>=◌
cleanup_completed_reset = do m ← read_reset_manifest; cleanup_from m
