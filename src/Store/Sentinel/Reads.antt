-- ===== src/Store/Sentinel/Reads.antt =====
-- Loading a sentinel that is in order, at every point where a fault can break it off.
use tlsrpt_digest.Base.{
  ◌≡◌, refl, sym, subst, inl, inr, true, false, arith, Bool-cases, Option, none, some, ◌==◌,
}
use tlsrpt_digest.Store.Types.{Sentinel, sentinel_format_version, File, parsed, garbage, Disk}
use tlsrpt_digest.Store.Triple.{
  Triple, Triple-pure, Triple-absurd, Triple-effect, Triple-look, Triple-bind,
}
use tlsrpt_digest.Store.Io.{M}
use tlsrpt_digest.Store.Sentinel.{
  FileStore, decode_sentinel, load_sentinel, or_fresh, load_or_init_sentinel_for_write, recovery_of,
  load_recovery_required, with_guard_exclusive,
}

-- the file that a read gave
abbrev pub as_file : {A : Type 0} → Option A → Option (File A)
as_file none = none
as_file (some a) = some (parsed a)

-- a sentinel file that the program reads without an error
abbrev pub IsReadable : Option (File Sentinel) → Type 0
IsReadable none = Unit
IsReadable (some garbage) = ⊥
IsReadable (some (parsed s)) = s.format_version ≡ 1

module _ {P : Disk → Type 0} {I : Disk → Type 0} (keep : (d : Disk) → P d → I d)
    (readable : (d : Disk) → P d → IsReadable d.sentinel) where
  decoded :
      (f : Option (File Sentinel))
      → Triple
          (λ d. P d × (f ≡ d.sentinel))
          (decode_sentinel f)
          (λ o d. P d × (as_file o ≡ d.sentinel))
          I
  decoded none = Triple-pure none (λ d h. h)
  decoded (some garbage) = Triple-absurd (λ d h. subst IsReadable (sym h.1) (readable d h.0))
  decoded (some (parsed s)) = elim (Bool-cases (s.format_version == sentinel_format_version)) [
    | inl current ↦ rw current (Triple-pure (some s) (λ d h. h))
    | inr other ↦ rw other (Triple-absurd (λ d h. wrong d h (readable d h.0) other))
  ]
    where
      wrong :
          (d : Disk)
          → P d × (some (parsed s) ≡ d.sentinel)
          → IsReadable d.sentinel
          → (s.format_version == 1) ≡ false
          → ⊥
      wrong d h r o = let v : s.format_version ≡ 1 = subst IsReadable (sym h.1) r in ground arith

  pub load_sentinel_keeps : Triple P load_sentinel (λ o d. P d × (as_file o ≡ d.sentinel)) I
  unfolding load_sentinel
  load_sentinel_keeps =
      Triple-bind (λ f d. P d × (f ≡ d.sentinel)) _ _ (Triple-look _ keep (λ d h. (h, refl)))
        decoded

  pub load_or_init_keeps :
      (st : FileStore)
      → Triple P
          (load_or_init_sentinel_for_write st)
          (λ s d. P d × ((o : Option Sentinel) × (as_file o ≡ d.sentinel) × (s ≡ or_fresh st o)))
          I
  unfolding load_or_init_sentinel_for_write
  load_or_init_keeps st =
      Triple-bind (λ o d. P d × (as_file o ≡ d.sentinel)) _ _ load_sentinel_keeps
        (λ o. Triple-pure _ (λ d h. (h.0, (o, h.1, refl))))

  pub load_recovery_keeps :
      Triple P load_recovery_required
        (λ r d. P d × ((o : Option Sentinel) × (as_file o ≡ d.sentinel) × (r ≡ recovery_of o)))
        I
  unfolding load_recovery_required
  load_recovery_keeps =
      Triple-bind (λ o d. P d × (as_file o ≡ d.sentinel)) _ _ load_sentinel_keeps
        (λ o. Triple-pure _ (λ d h. (h.0, (o, h.1, refl))))

module _ {P : Disk → Type 0} {I : Disk → Type 0} (keep : (d : Disk) → P d → I d) where
  -- the guard file and its lock leave the rest of the disk as it is
  pub guarded :
      {Q : Unit {0} → Disk → Type 0} (fn : M Unit)
      → ((d : Disk) → P d → P (record d { guard_file = true }))
      → Triple P fn Q I
      → Triple P (with_guard_exclusive fn) Q I
  unfolding with_guard_exclusive
  guarded fn stable t =
      Triple-bind (λ _. P) _ _ (Triple-effect _ keep stable)
        (λ _. Triple-bind (λ _. P) _ _ (Triple-effect _ keep (λ d h. h)) (λ _. t))
