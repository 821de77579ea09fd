-- ===== src/Store/Emails/Crash.antt =====
-- DeleteEmailsBefore of internal/store/emails.go when system calls fail or the process stops.
use tlsrpt_digest.Base.{
  ◌≡◌, refl, subst, ◌∙◌, ◌==◌, true, Bool-cases, none, some, ◌⊎◌, inl, inr, List, [], ◌∷◌, ◌++◌,
  if◌then◌else◌, if_both, arith,
}
use tlsrpt_digest.Base.Time.{Time, is_zero}
use tlsrpt_digest.Store.Types.{EmailMeta, Disk, DataFile, parsed}
use tlsrpt_digest.Store.Sentinel.{FileStore, is_read_only, unless_read_only}
use tlsrpt_digest.Store.Reports.{load_data_file, save_data_file, decode_data_file}
use tlsrpt_digest.Store.Reports.Files.{Holds}
use tlsrpt_digest.Store.Io.{
  World, Fault, pass, fail, crash, Outcome, done, failed, crashed, M, pure, throw, syscall, ◌>>=◌,
}
use tlsrpt_digest.Store.Emails.{
  path_of, read_eml, files, removed_from, dated_before, Sweep, keep_entry, after_remove,
  sweep_entry, sweep, attempt, EmailDeletion, deletion, delete_emails_before, remove_eml,
}
use tlsrpt_digest.Store.Emails.Deletion.{read_eml-without}

-- the entry stands in the list
abbrev pub Listed : EmailMeta → List EmailMeta → Type 0
Listed e [] = ⊥
Listed e (x ∷ xs) = (x ≡ e) ⊎ Listed e xs

Listed-append : (e x : EmailMeta) (es : List EmailMeta) → Listed e es → Listed e (es ++ (x ∷ []))
Listed-append e x [] h = absurd h
Listed-append e x (y ∷ ys) (inl p) = inl p
Listed-append e x (y ∷ ys) (inr h) = inr (Listed-append e x ys h)

Listed-append_self : (e : EmailMeta) (es : List EmailMeta) → Listed e (es ++ (e ∷ []))
Listed-append_self e [] = inl refl
Listed-append_self e (y ∷ ys) = inr (Listed-append_self e ys)

-- no file stands at the path of the entry
abbrev pub Gone : EmailMeta → Disk → Type 0
Gone e d = read_eml (path_of e) (files d.emails) ≡ none

-- what a turn or the loop does to the disk, wherever it breaks off
record Moved (d d' : Disk) : Type 0 where
  same : d'.data_file ≡ d.data_file
  gone : (x : EmailMeta) → Gone x d → Gone x d'

Moved-refl : (d : Disk) → Moved d d
Moved-refl d = record { same = refl; gone = λ x h. h }

Moved-trans : (a b c : Disk) → Moved a b → Moved b c → Moved a c
Moved-trans a b c h k = record { same = k.same ∙ h.same; gone = λ x g. k.gone x (h.gone x g) }

-- the entries of `es` and those kept so far are in the index that the loop leaves, or have no file
abbrev Settled : List EmailMeta → Sweep → Disk → Outcome Sweep → Type 0
Settled es s d (done s') =
    ((x : EmailMeta) → Listed x s.surviving → Listed x s'.surviving)
    × ((x : EmailMeta) → Listed x es → Listed x s'.surviving ⊎ Gone x d)
Settled es s d (failed e) = Unit
Settled es s d crashed = Unit

removed-Gone :
    (e : EmailMeta) (d : Disk) → Gone e (record d { emails = removed_from (path_of e) d.emails })
removed-Gone e d = ground (arith, read_eml-without (path_of e) (path_of e) (files d.emails))

removed-Moved :
    (e : EmailMeta) (d : Disk) → Moved d (record d { emails = removed_from (path_of e) d.emails })
removed-Moved e d = record {
  same = refl;
  gone = λ x g. ground (arith, read_eml-without (path_of e) (path_of x) (files d.emails));
}

kept_turn : (e : EmailMeta) (s : Sweep) (d : Disk) → Settled (e ∷ []) s d (done (keep_entry e s))
kept_turn e s d = (
  λ x h. Listed-append x e s.surviving h,
  λ x h. elim h [
    | inl p ↦
        inl (subst (λ y. Listed y (s.surviving ++ (e ∷ []))) p (Listed-append_self e s.surviving))
    | inr n ↦ absurd n
  ],
)

removed_turn :
    (e : EmailMeta) (s : Sweep) (d : Disk)
    → Settled
        (e ∷ [])
        s
        (record d { emails = removed_from (path_of e) d.emails })
        (done (after_remove e s true))
removed_turn e s d = (
  λ x h. h,
  λ x h. elim h [
    | inl p ↦ inr (
        subst (λ y. Gone y (record d { emails = removed_from (path_of e) d.emails })) p
          (removed-Gone e d))
    | inr n ↦ absurd n
  ],
)

abbrev Turn : EmailMeta → Sweep → Disk → Outcome Sweep × World → Type 0
Turn e s d out = Moved d out.1.disk × Settled (e ∷ []) s out.1.disk out.0

module _ (cutoff : Time) where
  turn :
      (e : EmailMeta) (s : Sweep) (d : Disk) (fs : List Fault)
      → Turn e s d (sweep_entry cutoff e s (record { disk = d; faults = fs }))
  unfolding sweep_entry attempt remove_eml syscall pure ◌>>=◌
  turn e s d fs = elim (Bool-cases (dated_before cutoff e)) [
    | inr k ↦ rw k (Moved-refl d, kept_turn e s d)
    | inl k ↦ rw k (removal e s d fs)
  ]
    where
      removal :
          (e : EmailMeta) (s : Sweep) (d : Disk) (fs : List Fault)
          → Turn e s d (
              (attempt (remove_eml (path_of e)) >>= λ b. pure (after_remove e s b))
                (record { disk = d; faults = fs }))
      removal e s d [] = (removed-Moved e d, removed_turn e s d)
      removal e s d (pass ∷ fs) = (removed-Moved e d, removed_turn e s d)
      removal e s d (fail x ∷ fs) = (Moved-refl d, kept_turn e s d)
      removal e s d (crash x ∷ fs) = (Moved-refl d, tt)

abbrev Looped : List EmailMeta → Sweep → Disk → Outcome Sweep × World → Type 0
Looped es s d out = Moved d out.1.disk × Settled es s out.1.disk out.0

module _ (cutoff : Time) where
  chain :
      (e : EmailMeta) (es : List EmailMeta) (s s' : Sweep) (d : Disk) (w : World)
      (out : Outcome Sweep × World)
      → Turn e s d (done s', w)
      → Looped es s' w.disk out
      → Looped (e ∷ es) s d out
  chain e es s s' d w (done t, v) (m, (k, l)) (n, (i, j)) = (
    Moved-trans d w.disk v.disk m n,
    (
      (λ x h. i x (k x h)),
      λ x h. elim h [
        | inl p ↦ elim (l x (inl p)) [ inl q ↦ inl (i x q) | inr g ↦ inr (n.gone x g) ]
        | inr q ↦ j x q
      ],
    ),
  )
  chain e es s s' d w (failed x, v) t (n, u) = (Moved-trans d w.disk v.disk t.0 n, tt)
  chain e es s s' d w (crashed, v) t (n, u) = (Moved-trans d w.disk v.disk t.0 n, tt)

  followed :
      (e : EmailMeta) (es : List EmailMeta) (s : Sweep) (d : Disk) (r : Outcome Sweep) (w : World)
      → Turn e s d (r, w)
      → ((s' : Sweep) (v : World) → Looped es s' v.disk (sweep cutoff es s' v))
      → Looped (e ∷ es) s d (((λ _. (r, w)) >>= λ s'. sweep cutoff es s') w)
  unfolding ◌>>=◌
  followed e es s d (done s') w t ih = chain e es s s' d w (sweep cutoff es s' w) t (ih s' w)
  followed e es s d (failed x) w t ih = (t.0, tt)
  followed e es s d crashed w t ih = (t.0, tt)

  looped : (es : List EmailMeta) (s : Sweep) (w : World) → Looped es s w.disk (sweep cutoff es s w)
  unfolding sweep pure ◌>>=◌
  looped [] s w = (Moved-refl w.disk, ((λ x h. h), λ x h. absurd h))
  looped (e ∷ es) s w =
      followed e es s w.disk (sweep_entry cutoff e s w).0 (sweep_entry cutoff e s w).1
        (turn cutoff e s w.disk w.faults) (looped es)

-- the index is the old one, or one whose missing entries have no file
abbrev pub Ordered : DataFile → Disk → Disk → Type 0
Ordered df d d' =
    (d'.data_file ≡ d.data_file)
    ⊎ ((es : List EmailMeta) × (d'.data_file ≡ some (parsed (record df { emails = es })))
        × ((x : EmailMeta) → Listed x df.emails → Listed x es ⊎ Gone x d'))

-- the steps after the data file is loaded
module _ (cutoff : Time) (df : DataFile) where
  abbrev finish : Sweep → M EmailDeletion
  finish s = if s.deleted == 0 then pure (deletion s true) else (do
    saved ← attempt (save_data_file (record df { emails = s.surviving }))
    pure (deletion s saved))

  save-Ordered :
      (d : Disk) (s : Sweep) (d' : Disk) (fs : List Fault)
      → Moved d d'
      → ((x : EmailMeta) → Listed x df.emails → Listed x s.surviving ⊎ Gone x d')
      → Ordered df d
          ((attempt (save_data_file (record df { emails = s.surviving })) >>= λ b.
              pure (deletion s b))
            (record { disk = d'; faults = fs })).1.disk
  unfolding attempt save_data_file syscall pure ◌>>=◌
  save-Ordered d s d' [] m l = inr (s.surviving, refl, l)
  save-Ordered d s d' (pass ∷ fs) m l = inr (s.surviving, refl, l)
  save-Ordered d s d' (fail x ∷ fs) m l = inl m.same
  save-Ordered d s d' (crash x ∷ fs) m l = inl m.same

  finish-Ordered :
      (d : Disk) (s : Sweep) (w : World)
      → Moved d w.disk
      → ((x : EmailMeta) → Listed x df.emails → Listed x s.surviving ⊎ Gone x w.disk)
      → Ordered df d (finish s w).1.disk
  unfolding pure
  finish-Ordered d s w m l =
      if_both (λ (f : M EmailDeletion). Ordered df d (f w).1.disk) (s.deleted == 0)
        (λ _. inl m.same) (λ _. save-Ordered d s w.disk w.faults m l)

  swept-Ordered :
      (d : Disk) (r : Outcome Sweep) (w : World)
      → Looped df.emails (record { deleted = 0; failures = []; surviving = [] }) d (r, w)
      → Ordered df d (((λ _. (r, w)) >>= finish) w).1.disk
  unfolding ◌>>=◌
  swept-Ordered d (done s) w (m, (k, l)) = finish-Ordered d s w m l
  swept-Ordered d (failed e) w (m, u) = inl m.same
  swept-Ordered d crashed w (m, u) = inl m.same

decoded :
    (d : Disk) (df : DataFile) (w : World)
    → Holds d df
    → decode_data_file d.data_file w ≡ (done df, w)
unfolding pure throw
decoded d df w (Holds.absent n e) = ground arith
decoded d df w (Holds.present e v) = ground arith

module _ (st : FileStore) (cutoff : Time) (d : Disk) (df : DataFile) where
  abbrev body : DataFile → M EmailDeletion
  body x =
      sweep cutoff x.emails (record { deleted = 0; failures = []; surviving = [] })
      >>= finish cutoff x

  body-Ordered :
      (fs : List Fault) → Ordered df d (body df (record { disk = d; faults = fs })).1.disk
  unfolding ◌>>=◌
  body-Ordered fs =
      let w : World = record { disk = d; faults = fs } in
      let start : Sweep = record { deleted = 0; failures = []; surviving = [] } in
      swept-Ordered cutoff df d (sweep cutoff df.emails start w).0
        (sweep cutoff df.emails start w).1 (looped cutoff df.emails start w)

  load-Ordered :
      (fs : List Fault)
      → Holds d df
      → Ordered df d ((load_data_file >>= body) (record { disk = d; faults = fs })).1.disk
  unfolding load_data_file syscall ◌>>=◌
  load-Ordered [] h = rw (decoded d df (record { disk = d; faults = [] }) h) (body-Ordered [])
  load-Ordered (pass ∷ fs) h =
      rw (decoded d df (record { disk = d; faults = fs }) h) (body-Ordered fs)
  load-Ordered (fail x ∷ fs) h = inl refl
  load-Ordered (crash x ∷ fs) h = inl refl

-- The data file is absent or can be read. Whatever system calls of DeleteEmailsBefore fail, and wherever
-- the process stops: afterwards the data file is the one before, or the same with another index, in
-- which every entry that the old index had still stands, or there is no file at its path.
pub delete_emails_before-Ordered :
    (st : FileStore) (cutoff : Time) (d : Disk) (df : DataFile) (fs : List Fault)
    → Holds d df
    → Ordered df d (delete_emails_before st cutoff (record { disk = d; faults = fs })).1.disk
unfolding delete_emails_before unless_read_only pure throw
delete_emails_before-Ordered st cutoff d df fs h =
    let w : World = record { disk = d; faults = fs } in
    if_both (λ (f : M EmailDeletion). Ordered df d (f w).1.disk) (is_read_only st.mode)
      (λ _. inl refl)
      (λ _.
        if_both (λ (f : M EmailDeletion). Ordered df d (f w).1.disk) (is_zero cutoff)
          (λ _. inl refl) (λ _. load-Ordered st cutoff d df fs h))
