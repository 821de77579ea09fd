-- ===== src/Store/Open.antt =====
-- internal/store/store.go: Open and initDataFile. The root directory is there (the cmd layer makes
-- it first), and the permission warnings change nothing.
pub mod Crash
use tlsrpt_digest.Base.{Bool, true, false, Option, none, some, List, [], if◌then◌else◌}
use tlsrpt_digest.Base.Time.{Time}
use tlsrpt_digest.Store.Types.{
  OpenMode, open_read_write, ImapIdentity, DataFile, data_file_version, Sentinel, parsed, Eml,
}
use tlsrpt_digest.Store.Io.{M, pure, effect, look, ◌>>=◌, ◌>>◌}
use tlsrpt_digest.Store.Sentinel.{
  FileStore, is_read_only, load_sentinel, init_sentinel, verify_sentinel_identity,
}
use tlsrpt_digest.Store.Recovery.{exists, is_recover_reset, cleanup_completed_reset}

abbrev pub empty_data_file : DataFile
empty_data_file = record { version = data_file_version; reports = []; emails = [] }

unfoldable pub init_data_file : M Unit
unfolding pure ◌>>=◌
init_data_file = do
  found ← look (λ d. exists d.data_file)
  if found then pure tt else effect (λ d. record d { data_file = some (parsed empty_data_file) })

abbrev or_empty_dir : Option (List Eml) → List Eml
or_empty_dir none = []
or_empty_dir (some es) = es

-- ensureDirExists of the emails directory: os.Stat, then os.MkdirAll
unfoldable pub ensure_emails_dir : M Unit
unfolding pure ◌>>=◌
ensure_emails_dir = do
  found ← look (λ d. exists d.emails)
  if found then pure tt else effect (λ d. record d { emails = some (or_empty_dir d.emails) })

abbrev pub is_read_write : OpenMode → Bool
is_read_write open_read_write = true
is_read_write _ = false

-- the block under `if !readOnly`
unfoldable pub prepare_files : OpenMode → M Unit
unfolding ensure_emails_dir init_data_file pure ◌>>=◌
prepare_files mode = do
  if is_recover_reset mode then pure tt else (do ensure_emails_dir; init_data_file)
  effect (λ d. record d { guard_file = true })

abbrev check_sentinel : ImapIdentity → OpenMode → Time → Option Sentinel → M Unit
check_sentinel identity mode now (some s) = verify_sentinel_identity s identity
check_sentinel identity mode now none =
    if is_read_only mode then pure tt else init_sentinel identity now

unfoldable pub open_store : ImapIdentity → OpenMode → Time → M FileStore
unfolding cleanup_completed_reset prepare_files load_sentinel verify_sentinel_identity init_sentinel
    pure ◌>>=◌
open_store identity mode now = do
  if is_read_write mode then cleanup_completed_reset else pure tt
  if is_read_only mode then pure tt else prepare_files mode
  s ← load_sentinel
  check_sentinel identity mode now s
  pure (record { identity = identity; mode = mode; now = now })
