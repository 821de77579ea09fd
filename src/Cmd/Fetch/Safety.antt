-- ===== src/Cmd/Fetch/Safety.antt =====
-- What cmd/tlsrpt-digest/fetch.go does not do in a dry run.
use tlsrpt_digest.Base.{
  ◌≡◌, refl, ◌∙◌, ℕ, Bool, true, ◌==◌, ◌&&◌, if_both, Option, none, some, ◌⊎◌, inl, inr, List, [],
  ◌∷◌, arith, String,
}
use tlsrpt_digest.Store.Types.{StoreError, RecoveryState, Disk}
use tlsrpt_digest.Store.Io.{World}
use tlsrpt_digest.Store.Sentinel.{load_sentinel, load_uid_validity}
use tlsrpt_digest.Store.Untouched.{Untouched, Any, Untouched-pure, Untouched-look, Untouched-bind}
use tlsrpt_digest.Cmd.Gc.{are_missing}
use tlsrpt_digest.Cmd.Gc.Safety.{decoded_sentinel, load_recovery_required-Untouched}
use tlsrpt_digest.Cmd.Session.{Event, Session, Step, goes, stops, breaks, connected}
use tlsrpt_digest.Cmd.Session.Logic.{Ends}
use tlsrpt_digest.Cmd.Session.Stable.{
  is_quiet, Stable, Keeps, Keeps-bind, Keeps-return, Keeps-if, Keeps-emit, Keeps-call,
  Keeps-closing,
}
use tlsrpt_digest.Cmd.Fetch.{FetchMetaResult, FetchRunner, BootContext, fetch_since}
use tlsrpt_digest.Cmd.Fetch.Validity.{fetch_validate_uid, loaded_uid, check_uid}
use tlsrpt_digest.Cmd.Fetch.Command.{run_fetch, after_sentinel, connect, with_fetcher, with_metas}
use tlsrpt_digest.Cmd.Fetch.Reads.{
  fail_with-Keeps, build_fetch_states-Keeps, fetch_dry_run_exit-Keeps,
}

abbrev pub all_quiet : List Event → Bool
all_quiet [] = true
all_quiet (e ∷ es) = is_quiet e && all_quiet es

-- the disk `d`, with nothing downloaded, marked or stored
abbrev Quiet : Disk → Session → Type 0
Quiet d s = (s.world.disk ≡ d) × (all_quiet s.trace ≡ true)

Quiet-Stable : (d : Disk) → Stable (Quiet d)
Quiet-Stable d = record {
  event = λ e q s h. (h.0, ground arith);
  world = λ s w e h. (e ∙ h.0, h.1);
}

pub load_uid_validity-Untouched : Untouched Any load_uid_validity
unfolding load_uid_validity load_sentinel
load_uid_validity-Untouched =
    Untouched-bind Any _ _
      (Untouched-bind Any _ _ (Untouched-look (λ d. d.sentinel)) (λ f _. decoded_sentinel f))
      (λ s _. Untouched-pure _ tt)

module _ {I : Session → Type 0} (k : Stable I) (r : FetchRunner) (boot : BootContext)
    (dry : boot.options.dry_run ≡ true) where
  check_uid-Keeps : (current : ℕ) (stored : Option ℕ) → Keeps I (check_uid r boot current stored)
  check_uid-Keeps current none =
      if_both (Keeps I) boot.options.dry_run (λ _. Keeps-return tt) (λ no. absurd (ground arith))
  check_uid-Keeps current (some stored) = Keeps-if (stored == current) (Keeps-return tt) (
      if_both (Keeps I) boot.options.dry_run (λ _. fail_with-Keeps k r _)
        (λ no. absurd (ground arith)))

  loaded_uid-Keeps :
      (current : ℕ) (x : StoreError ⊎ Option ℕ) → Keeps I (loaded_uid r boot current x)
  loaded_uid-Keeps current (inl e) = fail_with-Keeps k r _
  loaded_uid-Keeps current (inr stored) = check_uid-Keeps current stored

  fetch_validate_uid-Keeps : (current : ℕ) → Keeps I (fetch_validate_uid r boot current)
  unfolding fetch_validate_uid
  fetch_validate_uid-Keeps current =
      Keeps-bind _ _ (Keeps-call k _ load_uid_validity-Untouched) (loaded_uid-Keeps current)

  with_metas-Keeps : (x : Option FetchMetaResult) → Keeps I (with_metas r boot x)
  with_metas-Keeps none = fail_with-Keeps k r _
  with_metas-Keeps (some result) =
      Keeps-bind _ _ (fetch_validate_uid-Keeps result.uid_validity) (λ _.
        Keeps-bind _ _ (build_fetch_states-Keeps k r result.messages result.uid_validity) (λ states.
          if_both (Keeps I) boot.options.dry_run (λ _. fetch_dry_run_exit-Keeps k r states)
            (λ no. absurd (ground arith))))

  with_fetcher-Keeps : Keeps I (with_fetcher r boot)
  unfolding with_fetcher
  with_fetcher-Keeps =
      Keeps-bind _ _ (Keeps-emit k _ refl)
        (λ _. with_metas-Keeps (r.server.fetch_meta (fetch_since boot.options boot.config r.now)))

  connect-Keeps : (x : Option String) → Keeps I (connect r boot x)
  connect-Keeps (some text) = fail_with-Keeps k r _
  connect-Keeps none =
      Keeps-bind _ _ (Keeps-emit k connected refl) (λ _. Keeps-closing k _ with_fetcher-Keeps)

  after_sentinel-Keeps : (x : StoreError ⊎ Option RecoveryState) → Keeps I (after_sentinel r boot x)
  after_sentinel-Keeps (inl e) = fail_with-Keeps k r _
  after_sentinel-Keeps (inr (some state)) = fail_with-Keeps k r _
  after_sentinel-Keeps (inr none) =
      Keeps-if (are_missing r.credentials) (fail_with-Keeps k r _) (connect-Keeps r.server.connect)

  run_fetch-Keeps : Keeps I (run_fetch r boot)
  unfolding run_fetch
  run_fetch-Keeps =
      Keeps-bind _ _ (Keeps-call k _ load_recovery_required-Untouched) after_sentinel-Keeps

-- a session that starts
abbrev pub start : World → Session
start w = record { world = w; trace = [] }

pub kept :
    {A : Type 0} (I : Session → Type 0) (x : Step A) (s : Session)
    → Ends (λ _. I) (λ _. I) x s
    → I s
kept I (goes a) s h = h
kept I (stops code) s h = h
kept I breaks s h = h

-- A fetch with --dry-run, on any disk, whatever system calls fail or break it off, and whatever the
-- mail server and the notifier answer, leaves every file of the store as it was, and neither
-- downloads nor marks messages.
pub run_fetch-dry_run :
    (r : FetchRunner) (boot : BootContext)
    → boot.options.dry_run ≡ true
    → (w : World)
    → let s = (run_fetch r boot (start w)).1 in (s.world.disk ≡ w.disk) × (all_quiet s.trace ≡ true)
run_fetch-dry_run r boot dry w =
    let k = run_fetch-Keeps (Quiet-Stable w.disk) r boot dry in
    kept (Quiet w.disk) (run_fetch r boot (start w)).0 (run_fetch r boot (start w)).1
      (k.at (start w) (refl, refl))
