-- ===== src/Store/Recovery/Crash/Reset.antt =====
-- ResetForRecovery from its first line: which manifest it meets, and what it makes of it.
use tlsrpt_digest.Base.{
  ℕ, ◌≡◌, refl, sym, ap, subst, ◌≢◌, ◌⊎◌, inl, inr, true, false, Bool-cases, Option, none, some,
  List, arith, ◌==◌,
}
use tlsrpt_digest.Store.Types.{
  RecoveryState, Sentinel, ResetManifest, open_recover_reset, parsed, Staging, Eml, Disk,
}
use tlsrpt_digest.Store.Triple.{
  Triple, Triple-pure, Triple-effect, Triple-removal, Triple-bind, Triple-from, Triple-fact,
  Triple-absurd,
}
use tlsrpt_digest.Store.Sentinel.{FileStore, recovery_of}
use tlsrpt_digest.Store.Sentinel.Reads.{as_file, IsReadable, load_recovery_keeps}
use tlsrpt_digest.Store.Recovery.{
  manifest_at, or_empty, require_recovery, init_reset_manifest, remove_all_staging,
  mkdir_all_staging, write_reset_manifest, remove_manifest, remove_stale_committed_manifest,
  fresh_start, after_committed, resume_or_cleanup_committed, is_stale, reset_from,
  reset_for_recovery, is_recover_reset,
}
use tlsrpt_digest.Store.Recovery.Manifest.{IsSound, read_manifest_keeps, validate_keeps}
use tlsrpt_digest.Store.Recovery.Crash.States
use tlsrpt_digest.Store.Recovery.Crash.States.{Asks, Stage, Tail, fits}
use tlsrpt_digest.Store.Recovery.Crash.Commit

fits-new :
    (es : Option (List Eml)) (t : Option Staging) → t ≡ none → fits es (some (or_empty t)) ≡ true
fits-new none t e = refl
fits-new (some _) none e = refl
fits-new (some _) (some x) e = cc

module _ (s : Sentinel) (c : ℕ) (asks : Asks s c) (nonzero : c ≢ 0) (st : FileStore) where
  abbrev Resumable : Disk → Type 0
  Resumable = States.Resumable s c

  abbrev Committed : Disk → Type 0
  Committed = States.Committed s c

  abbrev ToDo : Disk → Type 0
  ToDo = States.ToDo s c

  abbrev Fresh : Disk → Type 0
  Fresh d = (d.sentinel ≡ some (parsed s)) × (d.manifest ≡ none)

  abbrev Finished : Disk → Type 0
  Finished d = Committed d × (d.manifest ≡ none)

  Fresh-Resumable : (d : Disk) → Fresh d → Resumable d
  Fresh-Resumable d h = inl (record { sentinel = h.0; stage = Stage.no_manifest h.1 })

  Fresh-IsReadable : (d : Disk) → Fresh d → IsReadable d.sentinel
  Fresh-IsReadable d h = subst IsReadable (sym h.0) asks.version

  -- what LoadRecoveryRequired gives is the state that the sentinel asks for
  abbrev Loaded : Option RecoveryState → Disk → Type 0
  Loaded r d = (o : Option Sentinel) × (as_file o ≡ d.sentinel) × (r ≡ recovery_of o)

  Loaded-state : (d : Disk) (r : Option RecoveryState) → Fresh d → Loaded r d → r ≡ some asks.state
  Loaded-state d r h (none, e, q) = cc (e, h.0)
  Loaded-state d r h (some x, e, q) = cc (e, h.0, q, asks.required)

  accepted : (x : RecoveryState) → some x ≡ some asks.state → (x.curr_uid_validity == c) ≡ true
  accepted x e = let same : x ≡ asks.state = cc e in rw same (ground (arith, asks.current))

  required_known :
      (r : Option RecoveryState)
      → r ≡ some asks.state
      → Triple Fresh (require_recovery c r) (λ _. Fresh) Resumable
  required_known none e = Triple-absurd (λ d h. cc e)
  required_known (some x) e = rw (accepted x e) (Triple-pure tt (λ d h. h))

  required :
      (r : Option RecoveryState)
      → Triple (λ d. Fresh d × Loaded r d) (require_recovery c r) (λ _. Fresh) Resumable
  required r = Triple-from (λ d h. (h.0, Loaded-state d r h.0 h.1)) (Triple-fact (required_known r))

  init_keeps :
      Triple Fresh
        (init_reset_manifest c)
        (λ m d. States.Driven s c d × (m ≡ manifest_at c 1))
        Resumable
  unfolding init_reset_manifest remove_all_staging mkdir_all_staging write_reset_manifest
  init_keeps = Triple-bind _ _ _ (load_recovery_keeps Fresh-Resumable Fresh-IsReadable) (λ r.
      Triple-bind _ _ _ (required r) (λ _.
        Triple-bind (λ _ d. Fresh d × (d.staging ≡ none)) _ _
          (Triple-removal _ _ (λ d x h. Fresh-Resumable _ h) (λ d h. (h, refl)))
          (λ _.
            Triple-bind (λ _ d. Fresh d × (fits d.emails d.staging ≡ true)) _ _
              (Triple-effect _ (λ d h. Fresh-Resumable d h.0)
                (λ d h. (h.0, fits-new d.emails d.staging h.1)))
              (λ _.
                Triple-bind (λ _. States.Driven s c) _ _
                  (Triple-effect _ (λ d h. Fresh-Resumable d h.0)
                    (λ d h. record { manifest = refl; room = h.1; sentinel = inl h.0.0 }))
                  (λ _. Triple-pure _ (λ d h. (h, refl)))))))

  start_keeps : Triple Fresh (fresh_start st c) (λ _. Finished) Resumable
  unfolding fresh_start
  start_keeps =
      Triple-bind _ _ _ init_keeps
        (λ m. Triple-fact (λ e. rw e (Commit.execute_keeps s c asks.version st)))

  -- a manifest of another reset, which is removed before a new start
  record Removable (d : Disk) : Type 0 where
    sentinel : d.sentinel ≡ some (parsed s)
    manifest : ResetManifest
    found : d.manifest ≡ some (parsed manifest)
    version : manifest.version ≡ 1
    phase : (manifest.phase ≡ 4) ⊎ ((manifest.phase ≡ 1) × (manifest.curr_uid_validity ≢ c))

  Removable-Resumable : (d : Disk) → Removable d → Resumable d
  Removable-Resumable d h = inl (record { sentinel = h.sentinel; stage = stage_of h.phase })
    where
      stage_of :
          (h.manifest.phase ≡ 4) ⊎ ((h.manifest.phase ≡ 1) × (h.manifest.curr_uid_validity ≢ c))
          → Stage c d
      stage_of (inl p) = Stage.leftover h.manifest h.found h.version p
      stage_of (inr p) = Stage.stale h.manifest h.found h.version p.0 p.1

  restaged : (d : Disk) (t : Option Staging) → Removable d → Removable (record d { staging = t })
  restaged d t h = record {
    sentinel = h.sentinel;
    manifest = h.manifest;
    found = h.found;
    version = h.version;
    phase = h.phase;
  }

  remove_stale_keeps : Triple Removable remove_stale_committed_manifest (λ _. Fresh) Resumable
  unfolding remove_stale_committed_manifest remove_all_staging remove_manifest
  remove_stale_keeps =
      Triple-bind (λ _. Removable) _ _
        (Triple-removal _ _ (λ d x h. Removable-Resumable _ (restaged d _ h))
          (λ d h. restaged d none h))
        (λ _. Triple-effect _ Removable-Resumable (λ d h. (h.sentinel, refl)))

  after_keeps :
      (r : Option RecoveryState)
      → Triple (λ d. Fresh d × Loaded r d) (after_committed st c r) (λ _. Finished) Resumable
  after_keeps none = Triple-absurd (λ d h. cc (Loaded-state d none h.0 h.1))
  after_keeps (some x) = Triple-from (λ d h. h.0) start_keeps

  committed_keeps : Triple Removable (resume_or_cleanup_committed st c) (λ _. Finished) Resumable
  unfolding resume_or_cleanup_committed
  committed_keeps =
      Triple-bind _ _ _ remove_stale_keeps
        (λ _. Triple-bind _ _ _ (load_recovery_keeps Fresh-Resumable Fresh-IsReadable) after_keeps)

  -- what the tests of `reset_from` say of the manifest of a store that is still to be reset
  abbrev Met : ResetManifest → Disk → Type 0
  Met m d = ToDo d × (some (parsed m) ≡ d.manifest)

  Met-old : (m : ResetManifest) (d : Disk) → Met m d → m ≢ manifest_at c 1 → Removable d
  Met-old m d h other = from_stage h.0.stage
    where
      from_stage : Stage c d → Removable d
      from_stage (Stage.no_manifest e) = cc (h.1, e)
      from_stage (Stage.leftover x e v q) = record {
        sentinel = h.0.sentinel;
        manifest = x;
        found = e;
        version = v;
        phase = inl q;
      }
      from_stage (Stage.stale x e v q o) = record {
        sentinel = h.0.sentinel;
        manifest = x;
        found = e;
        version = v;
        phase = inr (q, o);
      }
      from_stage (Stage.live e r) = absurd (other (cc (h.1, e)))

  not_live_committed : (m : ResetManifest) → (m.phase == 4) ≡ true → m ≢ manifest_at c 1
  not_live_committed m p e = ground arith

  not_live_stale : (m : ResetManifest) → is_stale m c ≡ true → m ≢ manifest_at c 1
  not_live_stale m p e = ground arith

  Met-live :
      (m : ResetManifest) (d : Disk)
      → Met m d
      → (m.phase == 4) ≡ false
      → is_stale m c ≡ false
      → States.Driven s c d × (m ≡ manifest_at c 1)
  Met-live m d h p q = from_stage h.0.stage
    where
      from_stage : Stage c d → States.Driven s c d × (m ≡ manifest_at c 1)
      from_stage (Stage.no_manifest e) = cc (h.1, e)
      from_stage (Stage.leftover x e v f) = ground (arith, h.1)
      from_stage (Stage.stale x e v f o) = ground (arith, h.1)
      from_stage (Stage.live e r) =
          (record { manifest = e; room = r; sentinel = inl h.0.sentinel }, cc (h.1, e))

  from_keeps :
      (o : Option ResetManifest)
      → Triple
          (λ d. ToDo d × (as_file o ≡ d.manifest))
          (reset_from st c o)
          (λ _. Finished)
          Resumable
  from_keeps none = Triple-from (λ d h. (h.0.sentinel, sym h.1)) start_keeps
  from_keeps (some m) =
      Triple-bind _ _ _
        (validate_keeps (λ d h. inl h) (λ d h. States.Stage-IsSound s c d h.stage) m)
        (λ _. elim (Bool-cases (m.phase == 4)) [
          | inl four ↦
              rw four
                (Triple-from (λ d h. Met-old m d h (not_live_committed m four)) committed_keeps)
          | inr other ↦ rw other (elim (Bool-cases (is_stale m c)) [
            | inl old ↦ rw old (
                Triple-from (λ d h. Met-old m d h (not_live_stale m old))
                  (Triple-bind _ _ _ remove_stale_keeps (λ _. start_keeps)))
            | inr current ↦ rw current (
                Triple-from (λ d h. Met-live m d h other current)
                  (Triple-fact (λ e. rw e (Commit.execute_keeps s c asks.version st))))
          ])
        ])

  -- From a store that is still to be reset, in the mode of a reset.
  pub reset_keeps :
      st.mode ≡ open_recover_reset → Triple ToDo (reset_for_recovery st c) (λ _. Finished) Resumable
  unfolding reset_for_recovery
  reset_keeps mode = rw (ap is_recover_reset mode) (
      Triple-bind _ _ _
        (read_manifest_keeps (λ d h. inl h) (λ d h. States.Stage-IsSound s c d h.stage)) from_keeps)

  Driven-IsSound : (d : Disk) → States.Driven s c d → IsSound d.manifest
  Driven-IsSound d h = subst IsSound (sym h.manifest) (refl, inl refl)

  -- the reset of a store that is committed resumes with the epoch of the manifest
  zero_keeps :
      (o : Option ResetManifest)
      → Triple
          (λ d. States.Driven s c d × (as_file o ≡ d.manifest))
          (reset_from st 0 o)
          (λ _. Finished)
          Resumable
  zero_keeps none = Triple-absurd (λ d h. cc (h.0.manifest, h.1))
  zero_keeps (some m) =
      Triple-from (λ d h. (h, m_live d h))
        (Triple-fact (λ e. rw e (
          Triple-bind _ _ _
            (validate_keeps (States.Driven-Resumable s c) Driven-IsSound (manifest_at c 1))
            (λ _. Triple-from (λ d h. h.0) (Commit.execute_keeps s c asks.version st)))))
    where
      m_live :
          (d : Disk) → States.Driven s c d × (as_file (some m) ≡ d.manifest) → m ≡ manifest_at c 1
      m_live d h = cc (h.0.manifest, h.1)

  pub resume_keeps :
      st.mode ≡ open_recover_reset
      → Triple (States.Driven s c) (reset_for_recovery st 0) (λ _. Finished) Resumable
  unfolding reset_for_recovery
  resume_keeps mode = rw (ap is_recover_reset mode) (
      Triple-bind _ _ _ (read_manifest_keeps (States.Driven-Resumable s c) Driven-IsSound)
        zero_keeps)
