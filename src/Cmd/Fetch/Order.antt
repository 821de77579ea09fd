-- ===== src/Cmd/Fetch/Order.antt =====
-- When cmd/tlsrpt-digest/fetch.go marks messages as seen, and which ones.
use tlsrpt_digest.Base.{
  ◌≡◌, ℕ, Bool, true, false, ◌==◌, Option, none, some, ◌⊎◌, inl, inr, List, [], ◌∷◌, arith, length,
}
use tlsrpt_digest.Store.Types.{StoreError}
use tlsrpt_digest.Store.Io.{M, World, Outcome, done, failed, crashed}
use tlsrpt_digest.Notify.Kinds.{SystemErrorKind}
use tlsrpt_digest.Cmd.Session.{
  Event, asked_download, asked_seen, flushed, stored_metas, stored_reports, asked_meta, Session,
  call,
}
use tlsrpt_digest.Cmd.Session.Logic.{Hoare-emit, Hoare-call, Called}
use tlsrpt_digest.Cmd.Session.Stable.{
  is_quiet, Stable, Keeps, Keeps-bind, Keeps-return, Keeps-stop, Keeps-if, log_warn-Keeps,
}
use tlsrpt_digest.Cmd.Fetch.{FetchRunner, BootContext, FetchMsgState, fail_with}
use tlsrpt_digest.Cmd.Fetch.Validity.{fetch_validate_uid, loaded_uid, check_uid, saved_or_corrupt}
use tlsrpt_digest.Cmd.Fetch.Download.{
  lacking, saved_eml, save_downloaded, save_all, after_download, download, fetch_download_and_save,
}
use tlsrpt_digest.Cmd.Fetch.Command.{or_stop}
use tlsrpt_digest.Cmd.Fetch.Reads.{fail_with-Keeps}

-- what stands before in the trace: SaveReports, then a Flush that succeeded
abbrev pub is_stored : List Event → Bool
is_stored (stored_reports rs ∷ es) = true
is_stored es = false

abbrev pub is_delivered : List Event → Bool
is_delivered (flushed true ∷ es) = is_stored es
is_delivered es = false

-- every MarkSeen of a trace is for the messages `uids`, right after a delivery
abbrev pub MarksOnly : List ℕ → List Event → Type 0
MarksOnly uids [] = Unit
MarksOnly uids (asked_seen xs ∷ es) = (xs ≡ uids) × (is_delivered es ≡ true) × MarksOnly uids es
MarksOnly uids (e ∷ es) = MarksOnly uids es

abbrev pub Marks : List ℕ → Session → Type 0
Marks uids s = MarksOnly uids s.trace

quiet_event :
    (uids : List ℕ) (e : Event) (es : List Event)
    → is_quiet e ≡ true
    → MarksOnly uids es
    → MarksOnly uids (e ∷ es)
quiet_event uids (asked_seen xs) es q h = absurd (ground arith)
quiet_event uids (asked_download xs) es q h = h
quiet_event uids (stored_metas xs) es q h = h
quiet_event uids (stored_reports xs) es q h = h
quiet_event uids Event.connected es q h = h
quiet_event uids Event.closed es q h = h
quiet_event uids (asked_meta t) es q h = h
quiet_event uids (Event.warned x) es q h = h
quiet_event uids (Event.alerted x) es q h = h
quiet_event uids (Event.reported x) es q h = h
quiet_event uids (flushed x) es q h = h
quiet_event uids (Event.logged_dry_run a b c d) es q h = h

pub Marks-Stable : (uids : List ℕ) → Stable (Marks uids)
Marks-Stable uids = record {
  event = λ e q s h. quiet_event uids e s.trace q h;
  world = λ s w e h. h;
}

module _ (r : FetchRunner) (uids : List ℕ) where
  any_call :
      {A : Type 0} (s : Session) (x : Outcome A) (w : World)
      → Marks uids s
      → Called
          (λ (x : StoreError ⊎ A) w. Marks uids (record s { world = w }))
          (λ w. Marks uids (record s { world = w }))
          x
          w
  any_call s (done a) w h = h
  any_call s (failed e) w h = h
  any_call s crashed w h = h

  pub call-Marks : {A : Type 0} (m : M A) → Keeps (Marks uids) (call m)
  call-Marks m = Hoare-call m (λ s h. any_call s (m s.world).0 (m s.world).1 h)

  pub fails-Marks :
      {A : Type 0} (kind : SystemErrorKind) → Keeps (Marks uids) (fail_with {A = A} r kind)
  fails-Marks kind = fail_with-Keeps (Marks-Stable uids) r kind

  pub passes : (x : StoreError ⊎ Unit {0}) → Keeps (Marks uids) (or_stop x)
  passes (inl e) = Keeps-stop _
  passes (inr u) = Keeps-return tt

  module _ (boot : BootContext) where
    saved-Marks : (x : StoreError ⊎ Unit {0}) → Keeps (Marks uids) (saved_or_corrupt r x)
    saved-Marks (inl e) = fails-Marks _
    saved-Marks (inr u) = Keeps-return tt

    check_uid-Marks :
        (current : ℕ) (stored : Option ℕ) → Keeps (Marks uids) (check_uid r boot current stored)
    check_uid-Marks current none =
        Keeps-if boot.options.dry_run (Keeps-return tt) (Keeps-bind _ _ (call-Marks _) saved-Marks)
    check_uid-Marks current (some stored) = Keeps-if (stored == current) (Keeps-return tt) (
        Keeps-if boot.options.dry_run (fails-Marks _)
          (Keeps-bind _ _ (Keeps-bind _ _ (call-Marks _) saved-Marks) (λ _. fails-Marks _)))

    loaded-Marks :
        (current : ℕ) (x : StoreError ⊎ Option ℕ) → Keeps (Marks uids) (loaded_uid r boot current x)
    loaded-Marks current (inl e) = fails-Marks _
    loaded-Marks current (inr stored) = check_uid-Marks current stored

    pub fetch_validate_uid-Marks :
        (current : ℕ) → Keeps (Marks uids) (fetch_validate_uid r boot current)
    unfolding fetch_validate_uid
    fetch_validate_uid-Marks current = Keeps-bind _ _ (call-Marks _) (loaded-Marks current)

    saved_eml-Marks :
        (s : FetchMsgState) (raw : List ℕ) (x : StoreError ⊎ Unit {0})
        → Keeps (Marks uids) (saved_eml s raw x)
    saved_eml-Marks s raw (inl e) = Keeps-stop _
    saved_eml-Marks s raw (inr u) = Keeps-return _

    save_downloaded-Marks :
        (current : ℕ) (s : FetchMsgState) (x : Option (List ℕ))
        → Keeps (Marks uids) (save_downloaded r boot current s x)
    save_downloaded-Marks current s none = fails-Marks _
    save_downloaded-Marks current s (some raw) =
        let store = Keeps-bind _ _ (call-Marks _) (saved_eml-Marks s raw) in
        Keeps-if (length raw == s.meta.size) store
          (Keeps-bind _ _ (log_warn-Keeps (Marks-Stable uids) _ _ _ _) (λ _. store))

    save_all-Marks :
        (current : ℕ) (f : ℕ → Option (List ℕ)) (states : List FetchMsgState)
        → Keeps (Marks uids) (save_all r boot current f states)
    unfolding save_all
    save_all-Marks current f [] = Keeps-return _
    save_all-Marks current f (s ∷ states) =
        Keeps-bind _ _
          (Keeps-if s.eml_existed_before (Keeps-return s)
            (save_downloaded-Marks current s (f s.meta.uid)))
          (λ _. Keeps-bind _ _ (save_all-Marks current f states) (λ _. Keeps-return _))

    after_download-Marks :
        (current : ℕ) (states : List FetchMsgState) (x : Option (ℕ → Option (List ℕ)))
        → Keeps (Marks uids) (after_download r boot current states x)
    after_download-Marks current states none = fails-Marks _
    after_download-Marks current states (some f) = save_all-Marks current f states

    download-Marks :
        (current : ℕ) (states : List FetchMsgState) (xs : List ℕ)
        → Keeps (Marks uids) (download r boot current states xs)
    download-Marks current states [] = Keeps-return _
    download-Marks current states (x ∷ xs) =
        Keeps-bind _ _ (Hoare-emit {Q = λ _. Marks uids} _ (λ s h. h))
          (λ _. after_download-Marks current states (r.server.download (x ∷ xs)))

    pub fetch_download_and_save-Marks :
        (current : ℕ) (states : List FetchMsgState)
        → Keeps (Marks uids) (fetch_download_and_save r boot current states)
    unfolding fetch_download_and_save
    fetch_download_and_save-Marks current states = download-Marks current states (lacking states)
