-- ===== src/Store/Recovery/Crash/Moves.antt =====
-- The staging steps of ResetForRecovery, from any state in which the phases are driven.
use tlsrpt_digest.Base.{
  ◌≡◌, refl, ap, subst, ◌∙◌, inl, inr, true, false, Option, none, some, List, [], ◌∷◌, ℕ, arith,
}
use tlsrpt_digest.Store.Types.{Sentinel, DataFile, File, Staging, Eml, Disk}
use tlsrpt_digest.Store.Triple.{
  Triple, Triple-pure, Triple-syscall, Triple-effect, Triple-look, Triple-bind,
}
use tlsrpt_digest.Store.Recovery.{
  exists, or_empty, mkdir_all_staging, move_data_file, move_emails_dir, stage_data_file,
  stage_emails_dir,
}
use tlsrpt_digest.Store.Recovery.Crash.States
use tlsrpt_digest.Store.Recovery.Crash.States.{is_free, fits}

module _ (s : Sentinel) (c : ℕ) where
  abbrev Driven : Disk → Type 0
  Driven = States.Driven s c

  abbrev Resumable : Disk → Type 0
  Resumable = States.Resumable s c

  Driven-Resumable : (d : Disk) → Driven d → Resumable d
  Driven-Resumable = States.Driven-Resumable s c

  room-mkdir :
      (es : Option (List Eml)) (t : Option Staging)
      → fits es t ≡ true
      → fits es (some (or_empty t)) ≡ true
  room-mkdir none t h = refl
  room-mkdir (some _) none h = refl
  room-mkdir (some _) (some x) h = h

  -- with the staging directory in place
  abbrev Staged : Disk → Type 0
  Staged d = Driven d × ((x : Staging) × (d.staging ≡ some x))

  pub mkdir-Driven : Triple Driven mkdir_all_staging (λ _. Staged) Resumable
  unfolding mkdir_all_staging
  mkdir-Driven = Triple-effect _ Driven-Resumable λ d h. (
    record {
      manifest = h.manifest;
      sentinel = h.sentinel;
      room = room-mkdir d.emails d.staging h.room;
    },
    (or_empty d.staging, refl),
  )

  abbrev NoData : Disk → Type 0
  NoData d = Staged d × (d.data_file ≡ none)

  without_data : Disk → Staging → Disk
  without_data d x = record d {
    data_file = none;
    staging = some (record x { data_file = d.data_file });
  }

  moved_data : (d : Disk) (x : Staging) → d.staging ≡ some x → Driven d → NoData (without_data d x)
  unfolding without_data
  moved_data d x e h = (
    (
      record {
        manifest = h.manifest;
        sentinel = elim h.sentinel [ inl old ↦ inl old | inr new ↦ inr (new.0, refl, new.2) ];
        room = room_moved d.emails (subst (λ t. fits d.emails t ≡ true) e h.room);
      },
      (record x { data_file = d.data_file }, refl),
    ),
    refl,
  )
    where
      room_moved :
          (es : Option (List Eml))
          → fits es (some x) ≡ true
          → fits es (some (record x { data_file = d.data_file })) ≡ true
      room_moved none r = refl
      room_moved (some _) r = r

  pub stage_data : Triple Staged stage_data_file (λ _. NoData) Resumable
  unfolding stage_data_file without_data
  stage_data =
      Triple-bind (λ found d. Staged d × (found ≡ exists d.data_file)) _ _
        (Triple-look _ (λ d h. Driven-Resumable d h.0) (λ d h. (h, refl)))
        (elim [
          | true ↦
              Triple-syscall _ _ (λ d x h. Driven-Resumable d h.0.0)
                (λ d h.
                  let (x, e) = h.0.1 in
                  (tt, without_data d x, ap (move_data_file d) e, moved_data d x e h.0.0))
          | false ↦ Triple-pure tt (λ d h. (h.0, ground (arith, h.1)))
        ])

  abbrev pub Empty : Disk → Type 0
  Empty d = Driven d × (d.data_file ≡ none) × (d.emails ≡ none)

  without_emails : Disk → Staging → Disk
  without_emails d x = record d { emails = none; staging = some (record x { emails = d.emails }) }

  not_refused :
      (d : Disk) (x : Staging)
      → is_free x.emails ≡ true
      → move_emails_dir d (some x) ≡ some (tt, without_emails d x)
  unfolding without_emails
  not_refused d x free = by_target x.data_file x.emails free
    where
      by_target :
          (f : Option (File DataFile)) (t : Option (List Eml))
          → is_free t ≡ true
          → let y : Staging = record { data_file = f; emails = t } in
            move_emails_dir d (some y) ≡ some (tt, without_emails d y)
      by_target f none r = refl
      by_target f (some []) r = refl
      by_target f (some (y ∷ ys)) r = cc

  has_room :
      (es : Option (List Eml)) (x : Staging)
      → true ≡ exists es
      → fits es (some x) ≡ true
      → is_free x.emails ≡ true
  has_room none x e r = cc
  has_room (some _) x e r = r

  moved_emails : (d : Disk) (x : Staging) → NoData d → Empty (without_emails d x)
  unfolding without_emails
  moved_emails d x h = (
    record {
      manifest = h.0.0.manifest;
      sentinel = elim h.0.0.sentinel [ inl old ↦ inl old | inr new ↦ inr (new.0, new.1, refl) ];
      room = refl;
    },
    h.1,
    refl,
  )

  pub stage_emails : Triple NoData stage_emails_dir (λ _. Empty) Resumable
  unfolding stage_emails_dir
  stage_emails =
      Triple-bind (λ found d. NoData d × (found ≡ exists d.emails)) _ _
        (Triple-look _ (λ d h. Driven-Resumable d h.0.0) (λ d h. (h, refl)))
        (elim [
          | true ↦
              Triple-syscall _ _ (λ d x h. Driven-Resumable d h.0.0.0)
                (λ d h.
                  let (x, e) = h.0.0.1 in
                  let room : fits d.emails (some x) ≡ true =
                    subst (λ t. fits d.emails t ≡ true) e h.0.0.0.room in
                  (
                    tt,
                    without_emails d x,
                    ap (move_emails_dir d) e ∙ not_refused d x (has_room d.emails x h.1 room),
                    moved_emails d x h.0,
                  ))
          | false ↦ Triple-pure tt (λ d h. (h.0.0.0, h.0.1, ground (arith, h.1)))
        ])
