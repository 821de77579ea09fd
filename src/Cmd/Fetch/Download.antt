-- ===== src/Cmd/Fetch/Download.antt =====
-- cmd/tlsrpt-digest/fetch.go: the mails of the mailbox, and the download of those that are not stored.
use tlsrpt_digest.Base.{
  ℕ, ◌==◌, true, false, Option, none, some, ◌⊎◌, inl, inr, List, [], ◌∷◌, length, if◌then◌else◌,
}
use tlsrpt_digest.Store.Types.{StoreError, EmailMeta}
use tlsrpt_digest.Store.Emails.{save_email}
use tlsrpt_digest.Notify.Kinds.{imap_operation_failed, size_mismatch}
use tlsrpt_digest.Cmd.Recover.{exit_error}
use tlsrpt_digest.Cmd.Session.{asked_download, Run, return, stop, call, emit, ◌>>=◌, ◌>>◌}
use tlsrpt_digest.Cmd.Attachments.{log_warn}
use tlsrpt_digest.Cmd.Fetch.{
  MessageMeta, FetchRunner, BootContext, FetchMsgState, notify_fetch_system_error, fail_with,
  local_email_size, has_eml,
}

abbrev pub sized : FetchRunner → MessageMeta → ℕ → StoreError ⊎ Option ℕ → Run FetchMsgState
sized r meta current (inl e) = stop exit_error
sized r meta current (inr none) =
    return (record { meta = meta; eml_existed_before = false; raw_eml = none })
sized r meta current (inr (some n)) =
    let state = return (record { meta = meta; eml_existed_before = true; raw_eml = none }) in
    if n == meta.size
    then state
    else log_warn size_mismatch meta.uid current meta.message_id >> state

unfoldable pub build_fetch_states : FetchRunner → List MessageMeta → ℕ → Run (List FetchMsgState)
unfolding local_email_size log_warn call return stop ◌>>=◌
build_fetch_states r [] current = return []
build_fetch_states r (meta ∷ metas) current = do
  size ← call (local_email_size meta.uid current meta.date)
  state ← sized r meta current size
  states ← build_fetch_states r metas current
  return (state ∷ states)

abbrev pub lacking : List FetchMsgState → List ℕ
lacking [] = []
lacking (s ∷ states) =
    let rest = lacking states in if s.eml_existed_before then rest else s.meta.uid ∷ rest

abbrev pub saved_eml : FetchMsgState → List ℕ → StoreError ⊎ Unit {0} → Run FetchMsgState
saved_eml s raw (inl e) = stop exit_error
saved_eml s raw (inr _) = return (record s { raw_eml = some raw })

abbrev pub store_eml : BootContext → ℕ → FetchMsgState → List ℕ → Run FetchMsgState
store_eml boot current s raw =
    call (save_email boot.store s.meta.uid current s.meta.date raw) >>= saved_eml s raw

abbrev pub save_downloaded :
    FetchRunner → BootContext → ℕ → FetchMsgState → Option (List ℕ) → Run FetchMsgState
save_downloaded r boot current s none = fail_with r imap_operation_failed
save_downloaded r boot current s (some raw) =
    if length raw == s.meta.size
    then store_eml boot current s raw
    else log_warn size_mismatch s.meta.uid current s.meta.message_id >> store_eml boot current s raw

-- the loop of fetchDownloadAndSave
unfoldable pub save_all :
    FetchRunner
    → BootContext
    → ℕ
    → (ℕ → Option (List ℕ))
    → List FetchMsgState
    → Run (List FetchMsgState)
unfolding notify_fetch_system_error log_warn save_email call return stop ◌>>=◌
save_all r boot current downloaded [] = return []
save_all r boot current downloaded (s ∷ states) = do
  s' ←
      if s.eml_existed_before
      then return s
      else save_downloaded r boot current s (downloaded s.meta.uid)
  states' ← save_all r boot current downloaded states
  return (s' ∷ states')

abbrev pub after_download :
    FetchRunner
    → BootContext
    → ℕ
    → List FetchMsgState
    → Option (ℕ → Option (List ℕ))
    → Run (List FetchMsgState)
after_download r boot current states none = fail_with r imap_operation_failed
after_download r boot current states (some downloaded) = save_all r boot current downloaded states

abbrev pub download :
    FetchRunner → BootContext → ℕ → List FetchMsgState → List ℕ → Run (List FetchMsgState)
download r boot current states [] = return states
download r boot current states (uid ∷ uids) = do
  emit (asked_download (uid ∷ uids))
  after_download r boot current states (r.server.download (uid ∷ uids))

unfoldable pub fetch_download_and_save :
    FetchRunner → BootContext → ℕ → List FetchMsgState → Run (List FetchMsgState)
unfolding save_all notify_fetch_system_error emit return stop ◌>>=◌
fetch_download_and_save r boot current states = download r boot current states (lacking states)

abbrev pub meta_of : ℕ → FetchMsgState → EmailMeta
meta_of current s = record { uid = s.meta.uid; uid_validity = current; internal_date = s.meta.date }

unfoldable pub build_email_metas : List FetchMsgState → ℕ → List EmailMeta
build_email_metas [] current = []
build_email_metas (s ∷ states) current =
    let rest = build_email_metas states current in
    if has_eml s then meta_of current s ∷ rest else rest
