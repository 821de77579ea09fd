-- ===== src/Cmd/Recover/Convergence.antt =====
-- `recover --mode discard-old --yes` run again and again, each run broken off by faults of its own,
-- until one run meets none.
use tlsrpt_digest.Base.{◌≡◌, refl, ◌≢◌, inl, inr, true, none, some, List, [], ◌∷◌, ℕ}
use tlsrpt_digest.Base.Time.{Time}
use tlsrpt_digest.Store.Types.{ImapIdentity, Sentinel, parsed, Disk}
use tlsrpt_digest.Store.Io.{Fault, World, Outcome, done, failed, crashed}
use tlsrpt_digest.Store.Sentinel.{same_identity}
use tlsrpt_digest.Store.Triple.{Post}
use tlsrpt_digest.Store.Recovery.{commit_in}
use tlsrpt_digest.Store.Recovery.Crash.States
use tlsrpt_digest.Store.Recovery.Crash.States.{Asks, Stage}
use tlsrpt_digest.Cmd.Recover.{ExitCode, recover_command}
use tlsrpt_digest.Cmd.Recover.Crash.{discard_old_yes, command_keeps}

-- one run of the command
abbrev pub run_once : ImapIdentity → Time → Disk → List Fault → Outcome ExitCode × World
run_once identity now d faults =
    recover_command identity now discard_old_yes (record { disk = d; faults = faults })

-- the disk after a run for each script of faults
abbrev pub run_all : ImapIdentity → Time → Disk → List (List Fault) → Disk
run_all identity now d [] = d
run_all identity now d (faults ∷ scripts) =
    run_all identity now (run_once identity now d faults).1.disk scripts

-- the run ended without an error
abbrev pub Ends : Outcome ExitCode → Type 0
Ends r = (code : ExitCode) × (r ≡ done code)

module _ (s : Sentinel) (c : ℕ) (asks : Asks s c) (nonzero : c ≢ 0) (identity : ImapIdentity)
    (same : same_identity s identity ≡ true) (now : Time) where
  abbrev Resumable : Disk → Type 0
  Resumable = States.Resumable s c

  always_resumable :
      (fs : List Fault) (r : Outcome ExitCode) (w : World)
      → Post (λ _. States.Committed s c) Resumable fs r w
      → Resumable w.disk
  always_resumable fs (done a) w p = inr p.0
  always_resumable fs (failed e) w p = p.0
  always_resumable fs crashed w p = p.0

  run_once_keeps :
      (d : Disk) (fs : List Fault)
      → Resumable d
      → Post
          (λ _. States.Committed s c)
          Resumable
          fs
          (run_once identity now d fs).0
          (run_once identity now d fs).1
  run_once_keeps d fs h =
      (command_keeps s c asks nonzero identity now same).at (record { disk = d; faults = fs }) h

  run_all_keeps :
      (d : Disk) (scripts : List (List Fault))
      → Resumable d
      → Resumable (run_all identity now d scripts)
  run_all_keeps d [] h = h
  run_all_keeps d (fs ∷ scripts) h = run_all_keeps (run_once identity now d fs).1.disk scripts (
      always_resumable fs (run_once identity now d fs).0 (run_once identity now d fs).1
        (run_once_keeps d fs h))

  complete :
      (r : Outcome ExitCode) (w : World)
      → Post (λ _. States.Committed s c) Resumable [] r w
      → Ends r × States.Committed s c w.disk
  complete (done a) w p = ((a, refl), p.0)
  complete (failed e) w p = absurd (p.1 refl)
  complete crashed w p = absurd (p.1 refl)

  -- The sentinel `s` of the configured mailbox asks for a recovery to the epoch `c`, not zero, and no
  -- reset manifest is there. After any number of runs of `recover --mode discard-old --yes`, each
  -- broken off by any faults, a run without faults ends without an error, and leaves neither the old
  -- report file nor the old mails, and the sentinel `s` with `c` recorded and no recovery asked for.
  pub discard_old_converges :
      (d : Disk)
      → d.sentinel ≡ some (parsed s)
      → d.manifest ≡ none
      → (scripts : List (List Fault))
      → let (r, w) = run_once identity now (run_all identity now d scripts) [] in
        Ends r
        × (w.disk.data_file ≡ none)
        × (w.disk.emails ≡ none)
        × (w.disk.sentinel ≡ some (parsed (commit_in c s)))
  discard_old_converges d e n scripts =
      let start = run_all identity now d scripts in
      let h =
        run_all_keeps d scripts (inl (record { sentinel = e; stage = Stage.no_manifest n })) in
      let (ends, k) =
        complete (run_once identity now start []).0 (run_once identity now start []).1
          (run_once_keeps start [] h) in
      (ends, k.data_file, k.emails, k.sentinel)
