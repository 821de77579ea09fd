-- ===== src/Store/Recovery/Manifest.antt =====
-- Reading and validating a manifest that is in order, at every point where a fault can break it off.
use tlsrpt_digest.Base.{
  ◌≡◌, refl, sym, subst, inl, inr, ◌⊎◌, arith, Bool, true, false, Bool-cases, Option, none, some,
  not, ◌==◌, ◌&&◌,
}
use tlsrpt_digest.Store.Types.{ResetManifest, File, parsed, garbage, Disk}
use tlsrpt_digest.Store.Triple.{Triple, Triple-pure, Triple-absurd, Triple-look, Triple-bind}
use tlsrpt_digest.Store.Sentinel.Reads.{as_file}
use tlsrpt_digest.Store.Recovery.{
  decode_manifest, pending_in, has_pending_reset, read_reset_manifest, validate_manifest,
  validate_manifest_phase,
}

-- whether HasPendingReset reports the manifest
abbrev pub is_pending : Option ResetManifest → Bool
is_pending none = false
is_pending (some m) = not (m.phase == 4)

-- a version and a phase that the program knows
abbrev pub IsKnown : ResetManifest → Type 0
IsKnown m = (m.version ≡ 1) × ((m.phase ≡ 1) ⊎ (m.phase ≡ 4))

-- a manifest file that the program reads without an error
abbrev pub IsSound : Option (File ResetManifest) → Type 0
IsSound none = Unit
IsSound (some garbage) = ⊥
IsSound (some (parsed m)) = IsKnown m

module _ {P : Disk → Type 0} {I : Disk → Type 0} (keep : (d : Disk) → P d → I d)
    (sound : (d : Disk) → P d → IsSound d.manifest) where
  decoded :
      (f : Option (File ResetManifest))
      → Triple
          (λ d. P d × (f ≡ d.manifest))
          (decode_manifest f)
          (λ o d. P d × (as_file o ≡ d.manifest))
          I
  decoded none = Triple-pure none (λ d h. h)
  decoded (some garbage) = Triple-absurd (λ d h. subst IsSound (sym h.1) (sound d h.0))
  decoded (some (parsed m)) = Triple-pure (some m) (λ d h. h)

  pub read_manifest_keeps : Triple P read_reset_manifest (λ o d. P d × (as_file o ≡ d.manifest)) I
  unfolding read_reset_manifest
  read_manifest_keeps =
      Triple-bind (λ f d. P d × (f ≡ d.manifest)) _ _ (Triple-look _ keep (λ d h. (h, refl)))
        decoded

  -- the manifest that was read is validated without an error
  pub validate_keeps :
      (m : ResetManifest)
      → Triple
          (λ d. P d × (some (parsed m) ≡ d.manifest))
          (validate_manifest m)
          (λ _ d. P d × (some (parsed m) ≡ d.manifest))
          I
  unfolding validate_manifest validate_manifest_phase
  validate_keeps m = elim (Bool-cases (m.version == 1)) [
    | inr bad ↦ rw bad (Triple-absurd (λ d h. version d h (sound d h.0) bad))
    | inl good ↦ rw good (elim (Bool-cases (not (m.phase == 1) && not (m.phase == 4))) [
      | inl bad ↦ rw bad (Triple-absurd (λ d h. phase d h (sound d h.0) bad))
      | inr fine ↦ rw fine (Triple-pure tt (λ d h. h))
    ])
  ]
    where
      version :
          (d : Disk)
          → P d × (some (parsed m) ≡ d.manifest)
          → IsSound d.manifest
          → (m.version == 1) ≡ false
          → ⊥
      version d h r b = let k : IsKnown m = subst IsSound (sym h.1) r in ground arith

      phase :
          (d : Disk)
          → P d × (some (parsed m) ≡ d.manifest)
          → IsSound d.manifest
          → (not (m.phase == 1) && not (m.phase == 4)) ≡ true
          → ⊥
      phase d h r b = let k : IsKnown m = subst IsSound (sym h.1) r in ground arith

  pending_from :
      (o : Option ResetManifest)
      → Triple
          (λ d. P d × (as_file o ≡ d.manifest))
          (pending_in o)
          (λ b d.
            P d × ((x : Option ResetManifest) × (as_file x ≡ d.manifest) × (b ≡ is_pending x)))
          I
  pending_from none = Triple-pure _ (λ d h. (h.0, (none, h.1, refl)))
  pending_from (some m) =
      Triple-bind _ _ _ (validate_keeps m) (λ _. Triple-pure _ (λ d h. (h.0, (some m, h.1, refl))))

  pub pending_keeps :
      Triple P has_pending_reset
        (λ b d. P d × ((x : Option ResetManifest) × (as_file x ≡ d.manifest) × (b ≡ is_pending x)))
        I
  unfolding has_pending_reset
  pending_keeps = Triple-bind _ _ _ read_manifest_keeps pending_from
