-- ===== src/Store/Recovery/Crash/States.antt =====
-- The states of the disk that an interrupted ResetForRecovery can leave behind.
use tlsrpt_digest.Base.{
  ℕ, ◌≡◌, refl, sym, subst, ◌≢◌, ◌⊎◌, inl, inr, Bool, true, false, Option, none, some, List, ◌∷◌,
  arith,
}
use tlsrpt_digest.Store.Types.{RecoveryState, Sentinel, ResetManifest, parsed, Staging, Eml, Disk}
use tlsrpt_digest.Store.Sentinel.Reads.{IsReadable}
use tlsrpt_digest.Store.Recovery.{manifest_at, commit_in}
use tlsrpt_digest.Store.Recovery.Manifest.{IsSound}

abbrev pub is_free : Option (List Eml) → Bool
is_free (some (e ∷ es)) = false
is_free _ = true

abbrev pub fits : Option (List Eml) → Option Staging → Bool
fits none t = true
fits (some _) none = true
fits (some _) (some x) = is_free x.emails

-- os.Rename of the emails directory into the staging directory is not refused
abbrev pub NoConflict : Disk → Type 0
NoConflict d = fits d.emails d.staging ≡ true

-- the sentinel `s` asks for a recovery to the epoch `c`
pub record Asks (s : Sentinel) (c : ℕ) : Type 0 where
  pub version : s.format_version ≡ 1
  pub state : RecoveryState
  pub required : s.recovery_required ≡ some state
  pub current : state.curr_uid_validity ≡ c

-- the manifest of a store whose reset to `c` is still to be done
pub data Stage (c : ℕ) (d : Disk) : Type 0 where
  no_manifest : d.manifest ≡ none → Stage c d
  leftover :
      (m : ResetManifest) → d.manifest ≡ some (parsed m) → m.version ≡ 1 → m.phase ≡ 4 → Stage c d
  stale :
      (m : ResetManifest)
      → d.manifest ≡ some (parsed m)
      → m.version ≡ 1
      → m.phase ≡ 1
      → m.curr_uid_validity ≢ c
      → Stage c d
  live : d.manifest ≡ some (parsed (manifest_at c 1)) → NoConflict d → Stage c d

-- the manifest of a store whose reset to `c` is committed
pub data Tail (c : ℕ) (d : Disk) : Type 0 where
  no_manifest : d.manifest ≡ none → Tail c d
  live : d.manifest ≡ some (parsed (manifest_at c 1)) → Tail c d
  leftover :
      (m : ResetManifest) → d.manifest ≡ some (parsed m) → m.version ≡ 1 → m.phase ≡ 4 → Tail c d

-- the staging directory is not looked at once the reset is committed
pub Tail-restaged :
    (c : ℕ) (d : Disk) (t : Option Staging) → Tail c d → Tail c (record d { staging = t })
Tail-restaged c d t (no_manifest e) = no_manifest e
Tail-restaged c d t (live e) = live e
Tail-restaged c d t (leftover m e v p) = leftover m e v p

module _ (s : Sentinel) (c : ℕ) where
  pub record ToDo (d : Disk) : Type 0 where
    pub sentinel : d.sentinel ≡ some (parsed s)
    pub stage : Stage c d

  -- nothing is left of the old epoch, and the sentinel says so
  pub record Committed (d : Disk) : Type 0 where
    pub sentinel : d.sentinel ≡ some (parsed (commit_in c s))
    pub data_file : d.data_file ≡ none
    pub emails : d.emails ≡ none
    pub tail : Tail c d

  -- a reset that has not started, one that was interrupted, and one that is committed
  abbrev pub Resumable : Disk → Type 0
  Resumable d = ToDo d ⊎ Committed d

  -- the states in which the phases are driven from the manifest
  pub record Driven (d : Disk) : Type 0 where
    pub manifest : d.manifest ≡ some (parsed (manifest_at c 1))
    pub room : NoConflict d
    pub sentinel :
        (d.sentinel ≡ some (parsed s))
        ⊎ ((d.sentinel ≡ some (parsed (commit_in c s))) × (d.data_file ≡ none) × (d.emails ≡ none))

  pub Driven-Resumable : (d : Disk) → Driven d → Resumable d
  Driven-Resumable d h = elim h.sentinel [
    | inl old ↦ inl (record { sentinel = old; stage = live h.manifest h.room })
    | inr new ↦ inr (record {
      sentinel = new.0;
      data_file = new.1;
      emails = new.2;
      tail = Tail.live h.manifest;
    })
  ]

  pub Stage-IsSound : (d : Disk) → Stage c d → IsSound d.manifest
  Stage-IsSound d (Stage.no_manifest e) = subst IsSound (sym e) tt
  Stage-IsSound d (Stage.leftover m e v p) = subst IsSound (sym e) (v, inr p)
  Stage-IsSound d (Stage.stale m e v p o) = subst IsSound (sym e) (v, inl p)
  Stage-IsSound d (Stage.live e r) = subst IsSound (sym e) (refl, inl refl)

  pub Tail-IsSound : (d : Disk) → Tail c d → IsSound d.manifest
  Tail-IsSound d (Tail.no_manifest e) = subst IsSound (sym e) tt
  Tail-IsSound d (Tail.leftover m e v p) = subst IsSound (sym e) (v, inr p)
  Tail-IsSound d (Tail.live e) = subst IsSound (sym e) (refl, inl refl)

  -- the program reads the files of such a store without an error
  pub Resumable-IsSound : (d : Disk) → Resumable d → IsSound d.manifest
  Resumable-IsSound d (inl h) = Stage-IsSound d h.stage
  Resumable-IsSound d (inr h) = Tail-IsSound d h.tail

  pub Resumable-IsReadable : s.format_version ≡ 1 → (d : Disk) → Resumable d → IsReadable d.sentinel
  Resumable-IsReadable v d (inl h) = subst IsReadable (sym h.sentinel) v
  Resumable-IsReadable v d (inr h) = subst IsReadable (sym h.sentinel) v

  -- the guard file is not looked at
  pub Resumable-guarded :
      (d : Disk) (b : Bool) → Resumable d → Resumable (record d { guard_file = b })
  Resumable-guarded d b (inl h) = inl (record { sentinel = h.sentinel; stage = stage_of h.stage })
    where
      stage_of : Stage c d → Stage c (record d { guard_file = b })
      stage_of (Stage.no_manifest e) = Stage.no_manifest e
      stage_of (Stage.leftover m e v p) = Stage.leftover m e v p
      stage_of (Stage.stale m e v p o) = Stage.stale m e v p o
      stage_of (Stage.live e r) = Stage.live e r
  Resumable-guarded d b (inr h) = inr (record {
    sentinel = h.sentinel;
    data_file = h.data_file;
    emails = h.emails;
    tail = tail_of h.tail;
  })
    where
      tail_of : Tail c d → Tail c (record d { guard_file = b })
      tail_of (Tail.no_manifest e) = Tail.no_manifest e
      tail_of (Tail.live e) = Tail.live e
      tail_of (Tail.leftover m e v p) = Tail.leftover m e v p

  -- a committed store whose reset HasPendingReset still reports
  pub Committed-pending :
      (d : Disk) (m : ResetManifest)
      → Committed d
      → some (parsed m) ≡ d.manifest
      → m.phase ≢ 4
      → Driven d
  Committed-pending d m h e p = from_tail h.tail
    where
      from_tail : Tail c d → Driven d
      from_tail (Tail.no_manifest n) = cc (e, n)
      from_tail (Tail.live l) = record {
        manifest = l;
        room = rw h.emails;
        sentinel = inr (h.sentinel, h.data_file, h.emails);
      }
      from_tail (Tail.leftover x l v q) = ground arith
