-- ===== src/Store/Sentinel.antt =====
-- internal/store/sentinel.go, and the sentinel operations of recovery.go.
pub mod Reads
use tlsrpt_digest.Base.{ℕ, Bool, Option, none, some, ◌&&◌, ◌==◌, str_eq, if◌then◌else◌}
use tlsrpt_digest.Base.Time.{Time}
use tlsrpt_digest.Store.Types.{
  OpenMode, open_read_only, ImapIdentity, RecoveryState, Sentinel, sentinel_format_version, File,
  parsed, garbage, read_only, identity_mismatch, unmarshal, unsupported_schema_version,
}
use tlsrpt_digest.Store.Io.{M, pure, throw, effect, look, ◌>>=◌, ◌>>◌}

-- `fileStore`; `now` is what time.Now gives during the call
pub record FileStore : Type 0 where
  pub identity : ImapIdentity
  pub mode : OpenMode
  pub now : Time

abbrev pub is_read_only : OpenMode → Bool
is_read_only open_read_only = Bool.true
is_read_only _ = Bool.false

abbrev pub decode_sentinel : Option (File Sentinel) → M (Option Sentinel)
decode_sentinel none = pure none
decode_sentinel (some garbage) = throw unmarshal
decode_sentinel (some (parsed s)) =
    if s.format_version == sentinel_format_version
    then pure (some s)
    else throw (unsupported_schema_version s.format_version)

unfoldable pub load_sentinel : M (Option Sentinel)
unfolding pure throw
load_sentinel = do f ← look (λ d. d.sentinel); decode_sentinel f

unfoldable pub save_sentinel : Sentinel → M Unit
save_sentinel s = effect (λ d. record d { sentinel = some (parsed s) })

abbrev pub fresh_sentinel : ImapIdentity → Time → Sentinel
fresh_sentinel i now = record {
  format_version = sentinel_format_version;
  imap_host = i.host;
  imap_port = i.port;
  imap_mailbox = i.mailbox;
  initialized_at = now;
  uid_validity = none;
  recovery_required = none;
}

unfoldable pub init_sentinel : ImapIdentity → Time → M Unit
unfolding save_sentinel
init_sentinel i now = save_sentinel (fresh_sentinel i now)

abbrev pub same_identity : Sentinel → ImapIdentity → Bool
same_identity s i =
    str_eq s.imap_host i.host && (s.imap_port == i.port && str_eq s.imap_mailbox i.mailbox)

unfoldable pub verify_sentinel_identity : Sentinel → ImapIdentity → M Unit
unfolding pure throw
verify_sentinel_identity s expected =
    if same_identity s expected then pure tt else throw identity_mismatch

-- the sentinel to modify: a fresh one where the file does not exist
abbrev pub or_fresh : FileStore → Option Sentinel → Sentinel
or_fresh st none = fresh_sentinel st.identity st.now
or_fresh st (some s) = s

unfoldable pub load_or_init_sentinel_for_write : FileStore → M Sentinel
unfolding load_sentinel pure ◌>>=◌
load_or_init_sentinel_for_write st = do s ← load_sentinel; pure (or_fresh st s)

-- open the guard file, creating it where it is absent, and take the exclusive lock
unfoldable pub with_guard_exclusive : M Unit → M Unit
unfolding ◌>>=◌
with_guard_exclusive fn = do effect (λ d. record d { guard_file = Bool.true }); effect (λ d. d); fn

-- `if s.readOnly { return ErrReadOnly }`
unfoldable pub unless_read_only : {A : Type 0} → FileStore → M A → M A
unfolding throw
unless_read_only st m = if is_read_only st.mode then throw read_only else m

unfoldable pub save_uid_validity : FileStore → ℕ → M Unit
unfolding unless_read_only load_or_init_sentinel_for_write save_sentinel ◌>>=◌
save_uid_validity st v =
    unless_read_only st (do
      s ← load_or_init_sentinel_for_write st
      save_sentinel (record s { uid_validity = some v }))

abbrev uid_of : Option Sentinel → Option ℕ
uid_of none = none
uid_of (some s) = s.uid_validity

unfoldable pub load_uid_validity : M (Option ℕ)
unfolding load_sentinel pure ◌>>=◌
load_uid_validity = do s ← load_sentinel; pure (uid_of s)

unfoldable pub save_recovery_required : FileStore → ℕ → ℕ → Time → M Unit
unfolding unless_read_only with_guard_exclusive load_or_init_sentinel_for_write save_sentinel ◌>>=◌
save_recovery_required st prev curr detected_at = unless_read_only st (
    with_guard_exclusive (do
      s ← load_or_init_sentinel_for_write st
      save_sentinel (record s {
        recovery_required = some (record {
          prev_uid_validity = prev;
          curr_uid_validity = curr;
          detected_at = detected_at;
        });
      })))

abbrev pub recovery_of : Option Sentinel → Option RecoveryState
recovery_of none = none
recovery_of (some s) = s.recovery_required

unfoldable pub load_recovery_required : M (Option RecoveryState)
unfolding load_sentinel pure ◌>>=◌
load_recovery_required = do s ← load_sentinel; pure (recovery_of s)

abbrev clear_in : Option Sentinel → M Unit
clear_in none = pure tt
clear_in (some s) = save_sentinel (record s { recovery_required = none })

unfoldable pub clear_recovery_required : FileStore → M Unit
unfolding unless_read_only with_guard_exclusive load_sentinel save_sentinel pure ◌>>=◌
clear_recovery_required st =
    unless_read_only st (with_guard_exclusive (do s ← load_sentinel; clear_in s))
