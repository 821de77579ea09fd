-- ===== src/Store/Types.antt =====
-- internal/store/types.go and errors.go: what the store keeps on disk, and how it fails.
-- uint32 and int values are numbers; a file that encoding/json can decode is `parsed`.
use tlsrpt_digest.Base.{ℕ, Bool, String, Option, List}
use tlsrpt_digest.Base.Time.{Time}
use tlsrpt_digest.Tlsrpt.{Report}

pub data OpenMode : Type 0 where
  open_read_write open_read_only open_recover_reset : OpenMode

pub record ImapIdentity : Type 0 where
  pub host : String
  pub port : ℕ
  pub mailbox : String

-- `EmailMeta` and `internalEmailIndexEntry`, which have the same fields
pub record EmailMeta : Type 0 where
  pub uid : ℕ
  pub uid_validity : ℕ
  pub internal_date : Time

pub record ReportInput : Type 0 where
  pub report : Report
  pub uid : ℕ
  pub uid_validity : ℕ

-- `internalDataFile`, the contents of tlsrpt.json
pub record DataFile : Type 0 where
  pub version : ℕ
  pub reports : List Report
  pub emails : List EmailMeta

pub record RecoveryState : Type 0 where
  pub prev_uid_validity : ℕ
  pub curr_uid_validity : ℕ
  pub detected_at : Time

-- `internalSentinelFile`
pub record Sentinel : Type 0 where
  pub format_version : ℕ
  pub imap_host : String
  pub imap_port : ℕ
  pub imap_mailbox : String
  pub initialized_at : Time
  pub uid_validity : Option ℕ
  pub recovery_required : Option RecoveryState

abbrev pub sentinel_format_version : ℕ
sentinel_format_version = 1

abbrev pub data_file_version : ℕ
data_file_version = 1

-- `resetManifest`; the phase is a number in the file
pub record ResetManifest : Type 0 where
  pub version : ℕ
  pub curr_uid_validity : ℕ
  pub phase : ℕ

-- A file that exists: one that decodes, or one that does not.
pub data File (A : Type 0) : Type 0 where
  parsed : A → File A
  garbage : File A

-- the path {uidvalidity}/{YYYYMM}/{uid}.eml under emails/
pub record EmailPath : Type 0 where
  pub uid_validity : ℕ
  pub month : ℕ
  pub uid : ℕ

-- An entry below emails/: a saved mail. The directories above it are made with it.
pub record Eml : Type 0 where
  pub path : EmailPath
  pub raw : List ℕ

-- the staging directory of a reset
pub record Staging : Type 0 where
  pub data_file : Option (File DataFile)
  pub emails : Option (List Eml)

-- the files below root_dir; `none` is a file that does not exist
pub record Disk : Type 0 where
  pub data_file : Option (File DataFile)
  pub emails : Option (List Eml)
  pub sentinel : Option (File Sentinel)
  pub manifest : Option (File ResetManifest)
  pub staging : Option Staging
  pub guard_file : Bool

pub data StoreError : Type 0 where
  read_only identity_mismatch data_corrupted pending_reset : StoreError
  recovery_required_missing invalid_store_mode zero_internal_date : StoreError
  unmarshal io_error : StoreError
  unsupported_schema_version : ℕ → StoreError
  recovery_uid_validity_mismatch : ℕ → ℕ → StoreError
  reset_manifest_version_mismatch : ℕ → StoreError
  reset_manifest_phase_unknown : ℕ → StoreError
