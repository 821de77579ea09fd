-- ===== src/Store/Recovery/Guard.antt =====
-- A reset in flight guards the store, and ApplyRecovery of internal/store/recovery.go without one.
use tlsrpt_digest.Base.{◌≡◌, refl, sym, subst, ℕ, true, false, none, some, arith}
use tlsrpt_digest.Base.Time.{Time}
use tlsrpt_digest.Store.Types.{
  open_read_write, ImapIdentity, RecoveryState, Sentinel, parsed, Disk, pending_reset,
}
use tlsrpt_digest.Store.Io.{done, failed, pure, throw, syscall, ◌>>=◌}
use tlsrpt_digest.Store.Sentinel.{
  FileStore, is_read_only, load_sentinel, save_sentinel, load_or_init_sentinel_for_write,
  with_guard_exclusive, unless_read_only, load_uid_validity, load_recovery_required,
}
use tlsrpt_digest.Store.Recovery.{
  manifest_at, reset_phase_manifest_written, validate_manifest_phase, validate_manifest,
  read_reset_manifest, has_pending_reset, apply_recovery, commit_in, cleanup_completed_reset,
}
use tlsrpt_digest.Store.Open.{open_store}
use tlsrpt_digest.Store.Reports.Files.{calm}

has_pending_reset_live :
    (d : Disk) (c : ℕ)
    → d.manifest ≡ some (parsed (manifest_at c 1))
    → has_pending_reset (calm d) ≡ (done true, calm d)
unfolding has_pending_reset read_reset_manifest validate_manifest validate_manifest_phase syscall
    pure throw ◌>>=◌
has_pending_reset_live d c m = ground arith

has_pending_reset_without_manifest :
    (d : Disk) → d.manifest ≡ none → has_pending_reset (calm d) ≡ (done false, calm d)
unfolding has_pending_reset read_reset_manifest syscall pure ◌>>=◌
has_pending_reset_without_manifest d m = ground arith

load_sentinel_lem :
    (d : Disk) (s : Sentinel)
    → d.sentinel ≡ some (parsed s)
    → s.format_version ≡ 1
    → load_sentinel (calm d) ≡ (done (some s), calm d)
unfolding load_sentinel syscall pure throw ◌>>=◌
load_sentinel_lem d s e v = ground arith

read_live :
    (d : Disk) (c : ℕ)
    → d.manifest ≡ some (parsed (manifest_at c 1))
    → read_reset_manifest (calm d) ≡ (done (some (manifest_at c 1)), calm d)
unfolding read_reset_manifest syscall pure throw ◌>>=◌
read_live d c m = ground arith

valid_live : (d : Disk) (c : ℕ) → validate_manifest (manifest_at c 1) (calm d) ≡ (done tt, calm d)
unfolding validate_manifest validate_manifest_phase pure throw
valid_live d c = refl

cleanup_live :
    (d : Disk) (s : Sentinel) (r : RecoveryState)
    → d.manifest ≡ some (parsed (manifest_at r.curr_uid_validity 1))
    → d.sentinel ≡ some (parsed s)
    → s.format_version ≡ 1
    → s.recovery_required ≡ some r
    → cleanup_completed_reset (calm d) ≡ (failed pending_reset, calm d)
unfolding cleanup_completed_reset throw ◌>>=◌
cleanup_live d s r m e v q = ground (
  arith,
  read_live d r.curr_uid_validity m,
  valid_live d r.curr_uid_validity,
  load_sentinel_lem d s e v,
)

-- The manifest of the disk is the one that a reset to the epoch the sentinel asks for writes before it
-- moves files. Then neither ApplyRecovery, in a store that is not read-only, nor Open in read-write
-- mode does anything: both fail with ErrPendingReset and leave the disk as it was.
pub pending_reset-guards :
    (st : FileStore) (identity : ImapIdentity) (now : Time) (new : ℕ) (d : Disk) (s : Sentinel)
    (r : RecoveryState)
    → is_read_only st.mode ≡ false
    → d.manifest ≡ some (parsed (manifest_at r.curr_uid_validity reset_phase_manifest_written))
    → d.sentinel ≡ some (parsed s)
    → s.format_version ≡ 1
    → s.recovery_required ≡ some r
    → (apply_recovery st new (calm d) ≡ (failed pending_reset, calm d))
      × (open_store identity open_read_write now (calm d) ≡ (failed pending_reset, calm d))
unfolding apply_recovery unless_read_only open_store throw ◌>>=◌
pending_reset-guards st identity now new d s r w m e v q = (
  ground (arith, has_pending_reset_live d r.curr_uid_validity m),
  ground (arith, cleanup_live d s r m e v q),
)

-- the disk after ApplyRecovery
abbrev applied : ℕ → Sentinel → Disk → Disk
applied new s d = record d { sentinel = some (parsed (commit_in new s)); guard_file = true }

apply_recovery_lem :
    (st : FileStore) (new : ℕ) (d : Disk) (s : Sentinel)
    → is_read_only st.mode ≡ false
    → d.manifest ≡ none
    → d.sentinel ≡ some (parsed s)
    → s.format_version ≡ 1
    → apply_recovery st new (calm d) ≡ (done tt, calm (applied new s d))
unfolding apply_recovery unless_read_only with_guard_exclusive load_or_init_sentinel_for_write
    save_sentinel syscall pure throw ◌>>=◌
apply_recovery_lem st new d s w m e v = ground (
  arith,
  has_pending_reset_without_manifest d m,
  load_sentinel_lem (record d { guard_file = true }) s e v,
)

load_uid_validity_lem :
    (d : Disk) (s : Sentinel)
    → d.sentinel ≡ some (parsed s)
    → s.format_version ≡ 1
    → load_uid_validity (calm d) ≡ (done s.uid_validity, calm d)
unfolding load_uid_validity pure ◌>>=◌
load_uid_validity_lem d s e v = ground (arith, load_sentinel_lem d s e v)

load_recovery_required_lem :
    (d : Disk) (s : Sentinel)
    → d.sentinel ≡ some (parsed s)
    → s.format_version ≡ 1
    → load_recovery_required (calm d) ≡ (done s.recovery_required, calm d)
unfolding load_recovery_required pure ◌>>=◌
load_recovery_required_lem d s e v = ground (arith, load_sentinel_lem d s e v)

-- In a store that is not read-only, without a reset manifest and with a sentinel in order:
-- ApplyRecovery succeeds; LoadUIDValidity then gives the new epoch, and LoadRecoveryRequired nothing;
-- the reports, the mails, and the other fields of the sentinel stay.
pub apply_recovery-then-load_uid_validity :
    (st : FileStore) (new : ℕ) (d : Disk) (s : Sentinel)
    → is_read_only st.mode ≡ false
    → d.manifest ≡ none
    → d.sentinel ≡ some (parsed s)
    → s.format_version ≡ 1
    → let (r, w) = apply_recovery st new (calm d) in
      (r ≡ done tt)
      × (load_uid_validity w ≡ (done (some new), w))
      × (load_recovery_required w ≡ (done none, w))
      × (w.disk.data_file ≡ d.data_file)
      × (w.disk.emails ≡ d.emails)
      × (w.disk.sentinel ≡ some (parsed (commit_in new s)))
apply_recovery-then-load_uid_validity st new d s w m e v =
    subst
      (λ out.
        (out.0 ≡ done tt)
        × (load_uid_validity out.1 ≡ (done (some new), out.1))
        × (load_recovery_required out.1 ≡ (done none, out.1))
        × (out.1.disk.data_file ≡ d.data_file)
        × (out.1.disk.emails ≡ d.emails)
        × (out.1.disk.sentinel ≡ some (parsed (commit_in new s))))
      (sym (apply_recovery_lem st new d s w m e v))
      (
        refl,
        load_uid_validity_lem (applied new s d) (commit_in new s) refl v,
        load_recovery_required_lem (applied new s d) (commit_in new s) refl v,
        refl,
        refl,
        refl,
      )
