-- ===== src/Cmd/Fetch/Complete.antt =====
-- What is stored after a run of cmd/tlsrpt-digest/fetch.go that ends with exit code 0.
use tlsrpt_digest.Base.{
  ◌≡◌, subst, ℕ, true, false, Option, none, some, ◌⊎◌, inl, inr, List, ◌∷◌, arith, String,
}
use tlsrpt_digest.Store.Types.{StoreError, RecoveryState}
use tlsrpt_digest.Store.Io.{World}
use tlsrpt_digest.Store.Sentinel.{load_recovery_required}
use tlsrpt_digest.Cmd.Gc.{are_missing}
use tlsrpt_digest.Cmd.Recover.{exit_ok}
use tlsrpt_digest.Cmd.Session.{Event, asked_meta, connected, Session, goes, emit, call}
use tlsrpt_digest.Cmd.Session.Logic.{
  Hoare, Hoare-if, Hoare-bind, Hoare-closing, Hoare-with, Hoare-given,
}
use tlsrpt_digest.Cmd.Session.Success.{Whatever, gone, anyhow, Hoare-weaken}
use tlsrpt_digest.Cmd.Fetch.{FetchMetaResult, FetchRunner, BootContext, FetchMsgState, fetch_since}
use tlsrpt_digest.Cmd.Fetch.Command.{
  process, with_metas, with_fetcher, connect, after_sentinel, run_fetch,
}
use tlsrpt_digest.Cmd.Fetch.Safety.{start}
use tlsrpt_digest.Cmd.Fetch.Present.{
  fails-Hoare, all_saved, AllRight, build_fetch_states-Right, Mails,
}
use tlsrpt_digest.Cmd.Fetch.Saved.{metas_of, fetch_download_and_save-Saved}
use tlsrpt_digest.Cmd.Fetch.Metas.{
  Entries, build_fetch_states-metas_of, fetch_download_and_save-Entries,
}
use tlsrpt_digest.Cmd.Fetch.Final.{stored_in, Stored, Final, indexes}

-- what a fetch has stored of what the server gave
abbrev pub Completed : Option FetchMetaResult → Session → Type 0
Completed none s = ⊥
Completed (some result) s =
    Stored result.uid_validity result.messages (stored_in s.trace) s.world.disk

module _ (r : FetchRunner) (boot : BootContext) where
  process-Final :
      (v : ℕ) (states : List FetchMsgState)
      → Hoare
          (Mails (λ es. Unit {0} × AllRight v states es))
          (process r boot v states)
          (λ _. Final r boot v (metas_of states))
          Whatever
  unfolding process
  process-Final v states =
      let ms = metas_of states in
      Hoare-bind
        (λ states' s.
          (Unit {0} × (all_saved v ms s.world.disk.emails ≡ true)) × Entries v ms states')
        _ _
        (Hoare-with (Entries v ms) _
          (fetch_download_and_save-Saved r boot v (record { more = λ _ _ _ h. h }) states)
          (fetch_download_and_save-Entries r boot v states))
        (λ states'. Hoare-given (λ k. Hoare-weaken (λ s h. h.1) (indexes r boot v ms states' k)))

  module _ (wet : boot.options.dry_run ≡ false) where
    with_metas-Completed :
        (x : Option FetchMetaResult)
        → Hoare (λ _. Unit {0}) (with_metas r boot x) (λ _. Completed x) Whatever
    with_metas-Completed none = fails-Hoare r _
    with_metas-Completed (some result) =
        let v = result.uid_validity in
        let ms = result.messages in
        Hoare-bind (λ _ _. Unit {0}) _ _ (anyhow _)
          (λ _.
            Hoare-bind
              (λ states s.
                (Unit {0} × AllRight v states s.world.disk.emails) × (metas_of states ≡ ms))
              _ _
              (Hoare-with (λ states. metas_of states ≡ ms) _
                (build_fetch_states-Right r v (λ _. Unit {0}) ms)
                (build_fetch_states-metas_of r ms v))
              (λ states. Hoare-given (λ e.
                Hoare-if boot.options.dry_run (λ dry. absurd (ground arith))
                  (λ _.
                    subst
                      (λ ms.
                        Hoare (Mails (λ es. Unit {0} × AllRight v states es))
                          (process r boot v states) (λ _. Final r boot v ms) Whatever)
                      e (process-Final v states)))))

    abbrev Whole : Session → Type 0
    Whole = Completed (r.server.fetch_meta (fetch_since boot.options boot.config r.now))

    with_fetcher-Completed : Hoare (λ _. Unit {0}) (with_fetcher r boot) (λ _. Whole) Whatever
    unfolding with_fetcher
    with_fetcher-Completed =
        let since = fetch_since boot.options boot.config r.now in
        Hoare-bind (λ _ _. Unit {0}) (emit (asked_meta since)) _ (anyhow _)
          (λ _.
            with_metas-Completed (r.server.fetch_meta (fetch_since boot.options boot.config r.now)))

    still :
        (x : Option FetchMetaResult) (s : Session)
        → Completed x s
        → Completed x (record s { trace = Event.closed ∷ s.trace })
    still none s h = h
    still (some result) s h = h

    connect-Completed :
        (x : Option String) → Hoare (λ _. Unit {0}) (connect r boot x) (λ _. Whole) Whatever
    connect-Completed (some text) = fails-Hoare r _
    connect-Completed none =
        Hoare-bind (λ _ _. Unit {0}) (emit connected) _ (anyhow _)
          (λ _. Hoare-closing _ (λ _ s h. still _ s h) (λ _ _ h. h) with_fetcher-Completed)

    after_sentinel-Completed :
        (x : StoreError ⊎ Option RecoveryState)
        → Hoare (λ _. Unit {0}) (after_sentinel r boot x) (λ _. Whole) Whatever
    after_sentinel-Completed (inl e) = fails-Hoare r _
    after_sentinel-Completed (inr (some state)) = fails-Hoare r _
    after_sentinel-Completed (inr none) =
        Hoare-if (are_missing r.credentials) (λ _. fails-Hoare r _)
          (λ _. connect-Completed r.server.connect)

    run_fetch-Whole : Hoare (λ _. Unit {0}) (run_fetch r boot) (λ _. Whole) Whatever
    unfolding run_fetch
    run_fetch-Whole =
        Hoare-bind (λ _ _. Unit {0}) (call load_recovery_required) _ (anyhow _)
          after_sentinel-Completed

-- A fetch that is no dry run and ends with exit code 0, on any disk and whatever the server, the
-- notifier and the system calls that did not end it did: the server gave its messages, each of
-- them has its file under its path, the data file is well formed and has an entry for each of them
-- under the server's UIDVALIDITY, and in it a report id that is among the reports handed to
-- SaveReports has the last of these reports.
pub run_fetch-Completed :
    (r : FetchRunner) (boot : BootContext) (w : World)
    → boot.options.dry_run ≡ false
    → (run_fetch r boot (start w)).0 ≡ goes exit_ok
    → Completed
        (r.server.fetch_meta (fetch_since boot.options boot.config r.now))
        (run_fetch r boot (start w)).1
run_fetch-Completed r boot w wet ok =
    gone (Whole r boot wet) (run_fetch r boot (start w)).0 (run_fetch r boot (start w)).1
      ((run_fetch-Whole r boot wet).at (start w) tt) ok
