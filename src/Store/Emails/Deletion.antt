-- ===== src/Store/Emails/Deletion.antt =====
-- DeleteEmailsBefore and CountEmailsBefore of internal/store/emails.go.
use tlsrpt_digest.Base.{
  ◌≡◌, refl, sym, ap, subst, ◌∙◌, ℕ, suc, ◌+◌, ◌==◌, ==_iff, Bool, false, ◌&&◌, ◌||◌, not, none,
  some, Bool-cases, inl, inr, List, [], ◌∷◌, ◌++◌, append-nil, append_assoc, select, count,
  if◌then◌else◌, arith,
}
use tlsrpt_digest.Base.Time.{Time, is_zero}
use tlsrpt_digest.Store.Types.{EmailMeta, EmailPath, Eml, Disk, DataFile, data_file_version, parsed}
use tlsrpt_digest.Store.Io.{done, pure, syscall, ◌>>=◌}
use tlsrpt_digest.Store.Sentinel.{FileStore, is_read_only, unless_read_only}
use tlsrpt_digest.Store.Reports.{save_data_file}
use tlsrpt_digest.Store.Reports.Files.{Holds, calm, load_data_file_lem}
use tlsrpt_digest.Store.Emails.{
  path_of, same_path, files, removed_from, without, dated_before, Sweep, keep_entry, sweep_entry,
  sweep, attempt, remove_eml, delete_emails_before, count_dated, count_emails_before, read_eml,
}

-- the entries that stay
abbrev pub kept_entries : Time → List EmailMeta → List EmailMeta
kept_entries cutoff es = select (λ e. not (dated_before cutoff e)) es

-- does an entry before the cutoff stand at this path?
abbrev pub is_swept : Time → EmailPath → List EmailMeta → Bool
is_swept cutoff p [] = false
is_swept cutoff p (e ∷ es) =
    (dated_before cutoff e && same_path (path_of e) p) || is_swept cutoff p es

pub read_eml-without :
    (p q : EmailPath) (es : List Eml)
    → read_eml q (without p es) ≡ (if same_path p q then none else read_eml q es)
read_eml-without p q [] = ground arith
read_eml-without p q (e ∷ es) = ground (arith, read_eml-without p q es)

-- the loop without faults
record Swept (cutoff : Time) (es : List EmailMeta) (s : Sweep) (d : Disk) : Type 0 where
  disk : Disk
  out : Sweep
  run : sweep cutoff es s (calm d) ≡ (done out, calm disk)
  deleted : out.deleted ≡ s.deleted + count (dated_before cutoff) es
  failures : out.failures ≡ s.failures
  surviving : out.surviving ≡ s.surviving ++ kept_entries cutoff es
  reads :
      (q : EmailPath)
      → read_eml q (files disk.emails)
        ≡ (if is_swept cutoff q es then none else read_eml q (files d.emails))
  same : disk.data_file ≡ d.data_file

-- the disk after one turn
abbrev turn : Time → EmailMeta → Disk → Disk
turn cutoff e d =
    if dated_before cutoff e then record d { emails = removed_from (path_of e) d.emails } else d

abbrev next : Time → EmailMeta → Sweep → Sweep
next cutoff e s =
    if dated_before cutoff e then record s { deleted = suc s.deleted } else keep_entry e s

sweep_entry_lem :
    (cutoff : Time) (e : EmailMeta) (s : Sweep) (d : Disk)
    → sweep_entry cutoff e s (calm d) ≡ (done (next cutoff e s), calm (turn cutoff e d))
unfolding sweep_entry attempt remove_eml syscall pure ◌>>=◌
sweep_entry_lem cutoff e s d = ground arith

turn_reads :
    (cutoff : Time) (e : EmailMeta) (d : Disk) (q : EmailPath)
    → read_eml q (files (turn cutoff e d).emails) ≡ (
        if dated_before cutoff e && same_path (path_of e) q
        then none
        else read_eml q (files d.emails))
turn_reads cutoff e d q = ground (arith, read_eml-without (path_of e) q (files d.emails))

sweep_lem : (cutoff : Time) (es : List EmailMeta) (s : Sweep) (d : Disk) → Swept cutoff es s d
unfolding sweep pure ◌>>=◌
sweep_lem cutoff [] s d = record {
  disk = d;
  out = s;
  run = refl;
  deleted = omega arith;
  failures = refl;
  surviving = sym (append-nil s.surviving);
  reads = λ q. refl;
  same = refl;
}
sweep_lem cutoff (e ∷ es) s d =
    let k = sweep_lem cutoff es (next cutoff e s) (turn cutoff e d) in
    record {
      disk = k.disk;
      out = k.out;
      run = ground (arith, sweep_entry_lem cutoff e s d, k.run);
      deleted = ground (arith, k.deleted);
      failures = ground (arith, k.failures);
      surviving =
          ground (arith, k.surviving, append_assoc s.surviving (e ∷ []) (kept_entries cutoff es));
      reads = λ q. ground (arith, k.reads q, turn_reads cutoff e d q);
      same = ground (arith, k.same);
    }

count_dated_lem :
    (cutoff : Time) (es : List EmailMeta) (n : ℕ)
    → count_dated cutoff es n ≡ n + count (dated_before cutoff) es
count_dated_lem cutoff [] n = omega arith
count_dated_lem cutoff (e ∷ es) n =
    ground (arith, count_dated_lem cutoff es n, count_dated_lem cutoff es (suc n))

kept_entries_of_none :
    (cutoff : Time) (es : List EmailMeta)
    → count (dated_before cutoff) es ≡ 0
    → kept_entries cutoff es ≡ es
kept_entries_of_none cutoff [] z = refl
kept_entries_of_none cutoff (e ∷ es) z = ground (arith, kept_entries_of_none cutoff es)

Holds-moved : (d d' : Disk) (df : DataFile) → d'.data_file ≡ d.data_file → Holds d df → Holds d' df
Holds-moved d d' df e (Holds.absent n x) = Holds.absent (e ∙ n) x
Holds-moved d d' df e (Holds.present p v) = Holds.present (e ∙ p) v

version_of : (d : Disk) (df : DataFile) → Holds d df → df.version ≡ data_file_version
version_of d df (Holds.absent n e) = ap (λ f. f.version) e
version_of d df (Holds.present e v) = v

abbrev start : Sweep
start = record { deleted = 0; failures = []; surviving = [] }

-- the state of the store after DeleteEmailsBefore without faults
record Deleted (st : FileStore) (d : Disk) (df : DataFile) (cutoff : Time) : Type 0 where
  disk : Disk
  run : delete_emails_before st cutoff (calm d) ≡ (
    done (record {
      deleted = count (dated_before cutoff) df.emails;
      failures = [];
      save_failed = false;
    }),
    calm disk,
  )
  holds : Holds disk (record df { emails = kept_entries cutoff df.emails })
  reads :
      (q : EmailPath)
      → read_eml q (files disk.emails)
        ≡ (if is_swept cutoff q df.emails then none else read_eml q (files d.emails))

delete_emails_before_lem :
    (st : FileStore) (d : Disk) (df : DataFile) (cutoff : Time)
    → is_read_only st.mode ≡ false
    → is_zero cutoff ≡ false
    → Holds d df
    → Deleted st d df cutoff
unfolding delete_emails_before unless_read_only save_data_file syscall attempt pure ◌>>=◌
delete_emails_before_lem st d df cutoff w nz h =
    let n = count (dated_before cutoff) df.emails in
    let k = sweep_lem cutoff df.emails start d in
    elim (Bool-cases (n == 0)) [
      | inl e ↦
          let z = (==_iff n 0).0 e in
          record {
            disk = k.disk;
            run = ground (arith, load_data_file_lem d df h, k.run, k.deleted, k.failures);
            holds =
                subst (λ es. Holds k.disk (record df { emails = es }))
                  (sym (kept_entries_of_none cutoff df.emails z))
                  (Holds-moved d k.disk df k.same h);
            reads = k.reads;
          }
      | inr e ↦ record {
        disk = record k.disk {
          data_file = some (parsed (record df { emails = kept_entries cutoff df.emails }));
        };
        run = ground (arith, load_data_file_lem d df h, k.run, k.deleted, k.failures, k.surviving);
        holds = Holds.present refl (version_of d df h);
        reads = k.reads;
      }
    ]

-- In a store that is not read-only, and whose data file is absent or can be read, and with a cutoff
-- that is not zero: DeleteEmailsBefore succeeds with the number that CountEmailsBefore gives;
-- the index keeps the entries whose date is not before the cutoff, in their order, and the reports
-- stay; the files of the other entries are gone, and every other file has the bytes it had.
pub delete_emails_before-deletes :
    (st : FileStore) (d : Disk) (df : DataFile) (cutoff : Time)
    → is_read_only st.mode ≡ false
    → is_zero cutoff ≡ false
    → Holds d df
    → let (r, w) = delete_emails_before st cutoff (calm d) in
      (n : ℕ) × (r ≡ done (record { deleted = n; failures = []; save_failed = false }))
      × (count_emails_before cutoff (calm d) ≡ (done n, calm d))
      × Holds w.disk (record df { emails = kept_entries cutoff df.emails })
      × ((q : EmailPath)
          → read_eml q (files w.disk.emails)
            ≡ (if is_swept cutoff q df.emails then none else read_eml q (files d.emails)))
unfolding count_emails_before pure ◌>>=◌
delete_emails_before-deletes st d df cutoff w nz h =
    let k = delete_emails_before_lem st d df cutoff w nz h in
    let n = count (dated_before cutoff) df.emails in
    subst
      (λ out.
        (n : ℕ) × (out.0 ≡ done (record { deleted = n; failures = []; save_failed = false }))
        × (count_emails_before cutoff (calm d) ≡ (done n, calm d))
        × Holds out.1.disk (record df { emails = kept_entries cutoff df.emails })
        × ((q : EmailPath)
            → read_eml q (files out.1.disk.emails)
              ≡ (if is_swept cutoff q df.emails then none else read_eml q (files d.emails))))
      (sym k.run)
      (
        n,
        refl,
        ground (arith, load_data_file_lem d df h, count_dated_lem cutoff df.emails 0),
        k.holds,
        k.reads,
      )
