-- ===== src/Store/Open/Crash.antt =====
-- Open in the mode of a reset, at every point where it can fail or stop.
use tlsrpt_digest.Base.{ℕ, ◌≡◌, refl, inl, inr, true, Option, none, some}
use tlsrpt_digest.Base.Time.{Time}
use tlsrpt_digest.Store.Types.{open_recover_reset, ImapIdentity, Sentinel, parsed, Disk}
use tlsrpt_digest.Store.Io.{pure}
use tlsrpt_digest.Store.Triple.{
  Triple, Triple-pure, Triple-effect, Triple-bind, Triple-from, Triple-fact, Triple-absurd,
}
use tlsrpt_digest.Store.Sentinel.{same_identity, verify_sentinel_identity}
use tlsrpt_digest.Store.Sentinel.Reads.{as_file, load_sentinel_keeps}
use tlsrpt_digest.Store.Recovery.{commit_in}
use tlsrpt_digest.Store.Recovery.Crash.States
use tlsrpt_digest.Store.Open.{check_sentinel, prepare_files, open_store}

module _ (s : Sentinel) (c : ℕ) (version : s.format_version ≡ 1) (identity : ImapIdentity)
    (same : same_identity s identity ≡ true) (now : Time) where
  abbrev Resumable : Disk → Type 0
  Resumable = States.Resumable s c

  -- the sentinel that was read has the identity of the configuration
  identified :
      (d : Disk) (x : Sentinel)
      → Resumable d
      → some (parsed x) ≡ d.sentinel
      → same_identity x identity ≡ true
  identified d x (inl h) e = let old : x ≡ s = cc (e, h.sentinel) in rw old same
  identified d x (inr h) e = let new : x ≡ commit_in c s = cc (e, h.sentinel) in rw new same

  checked :
      (o : Option Sentinel)
      → Triple
          (λ d. Resumable d × (as_file o ≡ d.sentinel))
          (check_sentinel identity open_recover_reset now o)
          (λ _. Resumable)
          Resumable
  unfolding verify_sentinel_identity
  checked none = Triple-absurd (λ d h. absent d h.0 h.1)
    where
      absent : (d : Disk) → Resumable d → as_file {A = Sentinel} none ≡ d.sentinel → ⊥
      absent d (inl h) e = cc (e, h.sentinel)
      absent d (inr h) e = cc (e, h.sentinel)
  checked (some x) = Triple-from (λ d h. (h.0, identified d x h.0 h.1)) (Triple-fact (verified x))
    where
      verified :
          (y : Sentinel)
          → same_identity y identity ≡ true
          → Triple Resumable (verify_sentinel_identity y identity) (λ _. Resumable) Resumable
      verified y e = rw e (Triple-pure tt (λ d h. h))

  pub opened :
      Triple Resumable
        (open_store identity open_recover_reset now)
        (λ st d. Resumable d × (st.mode ≡ open_recover_reset))
        Resumable
  unfolding open_store
  opened =
      Triple-bind (λ _. Resumable) (pure tt) _ (Triple-pure tt (λ d h. h))
        (λ _.
          Triple-bind (λ _. Resumable) (prepare_files open_recover_reset) _ prepared
            (λ _.
              Triple-bind _ _ _
                (load_sentinel_keeps (λ d h. h) (States.Resumable-IsReadable s c version))
                (λ o.
                  Triple-bind (λ _. Resumable) _ _ (checked o)
                    (λ _.
                      Triple-pure
                        (record { identity = identity; mode = open_recover_reset; now = now })
                        (λ d h. (h, refl))))))
    where
      prepared : Triple Resumable (prepare_files open_recover_reset) (λ _. Resumable) Resumable
      prepared =
          Triple-bind (λ _. Resumable) (pure tt) _ (Triple-pure tt (λ d h. h))
            (λ _. Triple-effect _ (λ d h. h) (λ d h. States.Resumable-guarded s c d true h))
