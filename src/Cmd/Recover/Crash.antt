-- ===== src/Cmd/Recover/Crash.antt =====
-- `recover --mode discard-old --yes` at every point where it can fail or stop.
use tlsrpt_digest.Base.{ℕ, ◌≡◌, ◌≢◌, inl, inr, Bool, true, false, Option, none, some, arith}
use tlsrpt_digest.Base.Time.{Time}
use tlsrpt_digest.Store.Types.{
  open_recover_reset, ImapIdentity, RecoveryState, Sentinel, ResetManifest, Disk,
}
use tlsrpt_digest.Store.Triple.{Triple, Triple-pure, Triple-bind, Triple-from, Triple-fact}
use tlsrpt_digest.Store.Sentinel.{FileStore, recovery_of, same_identity}
use tlsrpt_digest.Store.Sentinel.Reads.{as_file, load_recovery_keeps}
use tlsrpt_digest.Store.Recovery.Manifest.{is_pending, pending_keeps}
use tlsrpt_digest.Store.Recovery.Crash.States
use tlsrpt_digest.Store.Recovery.Crash.States.{Asks}
use tlsrpt_digest.Store.Recovery.Crash.Reset
use tlsrpt_digest.Store.Open.Crash.{opened}
use tlsrpt_digest.Cmd.Recover.{
  exit_ok, exit_error, RecoverOptions, discard_old, on_recovery, run_discard_old,
  handle_no_recovery_required, recover_command,
}

abbrev pub discard_old_yes : RecoverOptions
discard_old_yes = record { mode = discard_old; confirmed = true }

module _ (s : Sentinel) (c : ℕ) (asks : Asks s c) (nonzero : c ≢ 0) where
  abbrev Resumable : Disk → Type 0
  Resumable = States.Resumable s c

  abbrev Committed : Disk → Type 0
  Committed = States.Committed s c

  abbrev Known : Option ResetManifest → Bool → Disk → Type 0
  Known x b d = (as_file x ≡ d.manifest) × (b ≡ is_pending x)

  -- a store that is committed, and whose manifest HasPendingReset reports
  drivable :
      (d : Disk) (x : Option ResetManifest) → Committed d → Known x true d → States.Driven s c d
  drivable d none h k = cc (k.1)
  drivable d (some m) h k = States.Committed-pending s c d m h k.0 (ground (arith, k.1))

  no_recovery :
      (st : FileStore)
      → st.mode ≡ open_recover_reset
      → Triple Committed (handle_no_recovery_required st discard_old_yes) (λ _. Committed) Resumable
  unfolding handle_no_recovery_required
  no_recovery st mode =
      Triple-bind _ _ _ (pending_keeps (λ d h. inr h) (λ d h. States.Tail-IsSound s c d h.tail))
        (elim [
          | true ↦
              Triple-from (λ d h. drivable d h.1.0 h.0 (h.1.1, h.1.2))
                (Triple-bind _ _ _ (Reset.resume_keeps s c asks nonzero st mode)
                  (λ _. Triple-pure exit_ok (λ d h. h.0)))
          | false ↦ Triple-pure exit_error (λ d h. h.0)
        ])

  -- which of the two kinds of state was found
  found_none :
      (d : Disk) (o : Option Sentinel)
      → Resumable d
      → as_file o ≡ d.sentinel
      → none ≡ recovery_of o
      → Committed d
  found_none d o (inr h) e n = h
  found_none d none (inl h) e n = cc (e, h.sentinel)
  found_none d (some x) (inl h) e n = cc (e, h.sentinel, n, asks.required)

  found_some :
      (d : Disk) (o : Option Sentinel) (r : RecoveryState)
      → Resumable d
      → as_file o ≡ d.sentinel
      → some r ≡ recovery_of o
      → States.ToDo s c d × (r.curr_uid_validity ≡ c)
  found_some d none r h e n = cc (n)
  found_some d (some x) r (inl h) e n =
      let same : r ≡ asks.state = cc (e, h.sentinel, n, asks.required) in (h, rw same asks.current)
  found_some d (some x) r (inr h) e n = cc (e, h.sentinel, n)

  discarded :
      (st : FileStore) (curr : ℕ)
      → st.mode ≡ open_recover_reset
      → curr ≡ c
      → Triple (States.ToDo s c) (run_discard_old st curr true) (λ _. Committed) Resumable
  unfolding run_discard_old
  discarded st curr mode e = rw e (
      Triple-bind _ _ _ (Reset.reset_keeps s c asks nonzero st mode)
        (λ _. Triple-pure exit_ok (λ d h. h.0)))

  recovering :
      (st : FileStore) (r : Option RecoveryState)
      → st.mode ≡ open_recover_reset
      → Triple
          (λ d.
            Resumable d × ((o : Option Sentinel) × (as_file o ≡ d.sentinel) × (r ≡ recovery_of o)))
          (on_recovery st discard_old_yes r)
          (λ _. Committed)
          Resumable
  recovering st none mode =
      Triple-from (λ d h. found_none d h.1.0 h.0 h.1.1 h.1.2) (no_recovery st mode)
  recovering st (some r) mode =
      Triple-from (λ d h. found_some d h.1.0 r h.0 h.1.1 h.1.2)
        (Triple-fact (λ e.
          Triple-bind _ _ _
            (pending_keeps (λ d h. inl h) (λ d h. States.Stage-IsSound s c d h.stage))
            (λ b. Triple-from (λ d h. h.0) (discarded st r.curr_uid_validity mode e))))

  pub command_keeps :
      (identity : ImapIdentity) (now : Time)
      → same_identity s identity ≡ true
      → Triple Resumable (recover_command identity now discard_old_yes) (λ _. Committed) Resumable
  unfolding recover_command
  command_keeps identity now same =
      Triple-bind _ _ _ (opened s c asks.version identity same now) (λ st. Triple-fact (λ mode.
        Triple-bind _ _ _
          (load_recovery_keeps (λ d h. h) (States.Resumable-IsReadable s c asks.version))
          (λ r. recovering st r mode)))
