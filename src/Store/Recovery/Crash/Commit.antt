-- ===== src/Store/Recovery/Crash/Commit.antt =====
-- The commit of a reset, and its phases as a whole.
use tlsrpt_digest.Base.{◌≡◌, refl, ap, inl, inr, Option, none, some, ℕ}
use tlsrpt_digest.Store.Types.{Sentinel, parsed, Staging, Disk}
use tlsrpt_digest.Store.Triple.{
  Triple, Triple-effect, Triple-removal, Triple-bind, Triple-best_effort, Triple-weaken,
}
use tlsrpt_digest.Store.Sentinel.{FileStore, or_fresh, save_sentinel}
use tlsrpt_digest.Store.Sentinel.Reads.{as_file, load_or_init_keeps, guarded}
use tlsrpt_digest.Store.Recovery.{
  manifest_at, commit_in, commit_reset, advance_reset_phases, execute_reset_from_manifest,
  remove_all_staging, remove_manifest, write_reset_manifest,
}
use tlsrpt_digest.Store.Recovery.Crash.States
use tlsrpt_digest.Store.Recovery.Crash.States.{Tail}
use tlsrpt_digest.Store.Recovery.Crash.Moves

module _ (s : Sentinel) (c : ℕ) (version : s.format_version ≡ 1) (st : FileStore) where
  abbrev Resumable : Disk → Type 0
  Resumable = States.Resumable s c

  abbrev Committed : Disk → Type 0
  Committed = States.Committed s c

  abbrev Empty : Disk → Type 0
  Empty = Moves.Empty s c

  abbrev keep : (d : Disk) → Empty d → Resumable d
  keep d h = States.Driven-Resumable s c d h.0

  -- whatever was loaded, the same sentinel is committed
  same_commit :
      (d : Disk) (x : Sentinel) (o : Option Sentinel)
      → Empty d
      → as_file o ≡ d.sentinel
      → x ≡ or_fresh st o
      → commit_in c x ≡ commit_in c s
  same_commit d x none h e q = elim h.0.sentinel [ inl old ↦ cc (e, old) | inr new ↦ cc (e, new.0) ]
  same_commit d x (some y) h e q = elim h.0.sentinel [
    | inl old ↦ let same : x ≡ s = cc (e, old, q) in ap (commit_in c) same
    | inr new ↦ let same : x ≡ commit_in c s = cc (e, new.0, q) in ap (commit_in c) same
  ]

  commit_keeps : Triple Empty (commit_reset st c) (λ _. Committed) Resumable
  unfolding commit_reset save_sentinel write_reset_manifest
  commit_keeps =
      guarded keep _
        (λ d h.
          (record { manifest = h.0.manifest; room = h.0.room; sentinel = h.0.sentinel }, h.1, h.2))
        (Triple-bind _ _ _
          (load_or_init_keeps keep (λ d h. States.Resumable-IsReadable s c version d (keep d h)) st)
          (λ x.
            Triple-bind (λ _ d. Committed d × (d.manifest ≡ some (parsed (manifest_at c 1)))) _ _
              (Triple-effect _ (λ d h. keep d h.0)
                (λ d h. (
                  record {
                    sentinel = ap (λ y. some (parsed y)) (same_commit d x h.1.0 h.0 h.1.1 h.1.2);
                    data_file = h.0.1;
                    emails = h.0.2;
                    tail = Tail.live h.0.0.manifest;
                  },
                  h.0.0.manifest,
                )))
              (λ _.
                Triple-effect _ (λ d h. inr h.0)
                  (λ d h. record {
                    sentinel = h.0.sentinel;
                    data_file = h.0.data_file;
                    emails = h.0.emails;
                    tail = Tail.leftover (manifest_at c 4) refl refl refl;
                  }))))

  advance_keeps : Triple (States.Driven s c) (advance_reset_phases st c) (λ _. Committed) Resumable
  unfolding advance_reset_phases
  advance_keeps = Triple-bind _ _ _ (Moves.mkdir-Driven s c) (λ _.
      Triple-bind _ _ _ (Moves.stage_data s c)
        (λ _. Triple-bind _ _ _ (Moves.stage_emails s c) (λ _. commit_keeps)))

  Committed-unstaged : Triple Committed remove_all_staging (λ _. Committed) Committed
  unfolding remove_all_staging
  Committed-unstaged = Triple-removal _ _ (λ d x h. rebuilt d _ h) (λ d h. rebuilt d none h)
    where
      rebuilt : (d : Disk) (t : Option Staging) → Committed d → Committed (record d { staging = t })
      rebuilt d t h = record {
        sentinel = h.sentinel;
        data_file = h.data_file;
        emails = h.emails;
        tail = States.Tail-restaged c d t h.tail;
      }

  -- Driven from the manifest, a reset ends committed and with the manifest gone, or it breaks off
  -- in a state from which it can be resumed.
  pub execute_keeps :
      Triple
        (States.Driven s c)
        (execute_reset_from_manifest st (manifest_at c 1))
        (λ _ d. Committed d × (d.manifest ≡ none))
        Resumable
  unfolding execute_reset_from_manifest remove_manifest
  execute_keeps = Triple-bind _ _ _ advance_keeps (λ _.
      Triple-bind (λ _. Committed) _ _
        (Triple-weaken (λ d h. h) (λ _ d h. h) (λ d h. inr h)
          (Triple-best_effort remove_all_staging Committed-unstaged))
        (λ _.
          Triple-effect _ (λ d h. inr h)
            (λ d h. (
              record {
                sentinel = h.sentinel;
                data_file = h.data_file;
                emails = h.emails;
                tail = Tail.no_manifest refl;
              },
              refl,
            ))))
