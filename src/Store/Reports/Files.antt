-- ===== src/Store/Reports/Files.antt =====
-- The operations of internal/store/reports.go on a store whose data file can be read, without faults.
use tlsrpt_digest.Base.{
  ◌≡◌, refl, sym, ap, subst, ℕ, suc, ◌+◌, ==_iff, ◌==◌, false, not, Bool-cases, inl, inr, String,
  none, some, List, [], ◌∷◌, select, count, arith,
}
use tlsrpt_digest.Base.Time.{Time}
use tlsrpt_digest.Tlsrpt.{Report}
use tlsrpt_digest.Store.Types.{ReportInput, DataFile, data_file_version, parsed, Disk}
use tlsrpt_digest.Store.Io.{World, Outcome, done, pure, throw, syscall, ◌>>=◌}
use tlsrpt_digest.Store.Sentinel.{FileStore, is_read_only, unless_read_only}
use tlsrpt_digest.Store.Open.{empty_data_file}
use tlsrpt_digest.Store.Reports.{
  load_data_file, save_data_file, upsert_reports, save_reports, get_all_reports, ends_before,
  partition_reports, delete_reports_before, count_before, count_reports_before,
}
use tlsrpt_digest.Store.Reports.Upsert.{lookup, Unique, last_input, or_else, upsert_reports_lem}

-- what the data file of the disk holds, where it can be read: an absent file is an empty one
pub data Holds (d : Disk) (df : DataFile) : Type 0 where
  absent : d.data_file ≡ none → df ≡ empty_data_file → Holds d df
  present : d.data_file ≡ some (parsed df) → df.version ≡ data_file_version → Holds d df

-- a disk and no faults
abbrev pub calm : Disk → World
calm d = record { disk = d; faults = [] }

abbrev pub with_reports : DataFile → List Report → DataFile
with_reports df rs = record df { reports = rs }

pub load_data_file_lem :
    (d : Disk) (df : DataFile) → Holds d df → load_data_file (calm d) ≡ (done df, calm d)
unfolding load_data_file syscall pure throw ◌>>=◌
load_data_file_lem d df (Holds.absent n e) = ground arith
load_data_file_lem d df (Holds.present e v) = ground arith

save_reports_lem :
    (st : FileStore) (d : Disk) (df : DataFile) (inputs : List ReportInput)
    → is_read_only st.mode ≡ false
    → Holds d df
    → save_reports st inputs (calm d) ≡ (
      done tt,
      calm (record d {
        data_file = some (parsed (with_reports df (upsert_reports inputs df.reports)));
      }),
    )
unfolding save_reports unless_read_only save_data_file syscall ◌>>=◌
save_reports_lem st d df inputs w h = ground (arith, load_data_file_lem d df h)

partition_reports_lem :
    (cutoff : Time) (rs : List Report)
    → partition_reports cutoff rs
      ≡ (count (ends_before cutoff) rs, select (λ r. not (ends_before cutoff r)) rs)
unfolding partition_reports
partition_reports_lem cutoff [] = refl
partition_reports_lem cutoff (r ∷ rs) = ground (arith, partition_reports_lem cutoff rs)

count_before_lem :
    (cutoff : Time) (rs : List Report) (n : ℕ)
    → count_before cutoff rs n ≡ n + count (ends_before cutoff) rs
count_before_lem cutoff [] n = omega arith
count_before_lem cutoff (r ∷ rs) n =
    ground (arith, count_before_lem cutoff rs n, count_before_lem cutoff rs (suc n))

pub get_all_reports_lem :
    (d : Disk) (df : DataFile) → Holds d df → get_all_reports (calm d) ≡ (done df.reports, calm d)
unfolding get_all_reports pure ◌>>=◌
get_all_reports_lem d df h = ground (arith, load_data_file_lem d df h)

count_reports_before_lem :
    (d : Disk) (df : DataFile) (cutoff : Time)
    → Holds d df
    → count_reports_before cutoff (calm d) ≡ (done (count (ends_before cutoff) df.reports), calm d)
unfolding count_reports_before pure ◌>>=◌
count_reports_before_lem d df cutoff h =
    ground (arith, load_data_file_lem d df h, count_before_lem cutoff df.reports 0)

-- the disk with the reports `rs` in the data file
abbrev stored : Disk → DataFile → List Report → Disk
stored d df rs = record d { data_file = some (parsed (with_reports df rs)) }

version_of : (d : Disk) (df : DataFile) → Holds d df → df.version ≡ data_file_version
version_of d df (Holds.absent n e) = ap (λ f. f.version) e
version_of d df (Holds.present e v) = v

stored-Holds :
    (d : Disk) (df : DataFile) (rs : List Report)
    → Holds d df
    → Holds (stored d df rs) (with_reports df rs)
stored-Holds d df rs h = Holds.present refl (version_of d df h)

-- what a run of SaveReports gives
abbrev Saves :
    (List Report → Type 0) → FileStore → Disk → List ReportInput → Outcome Unit × World → Type 0
Saves P st d inputs out =
    (all : List Report) × (out.0 ≡ done tt) × (get_all_reports out.1 ≡ (done all, out.1)) × P all

save_reports-Saves :
    (P : List Report → Type 0) (st : FileStore) (d : Disk) (df : DataFile)
    (inputs : List ReportInput)
    → is_read_only st.mode ≡ false
    → Holds d df
    → P (upsert_reports inputs df.reports)
    → Saves P st d inputs (save_reports st inputs (calm d))
save_reports-Saves P st d df inputs w h p =
    let rs = upsert_reports inputs df.reports in
    subst (Saves P st d inputs) (sym (save_reports_lem st d df inputs w h)) (
      rs,
      refl,
      get_all_reports_lem (stored d df rs) (with_reports df rs) (stored-Holds d df rs h),
      p,
    )

-- In a store that is not read-only, and whose data file is absent or can be read: SaveReports
-- succeeds, and GetAllReports then gives a list where an id has the last input with this id, or,
-- where no input has it, the report it had before.
pub save_reports-then-get_all_reports :
    (st : FileStore) (d : Disk) (df : DataFile) (inputs : List ReportInput)
    → is_read_only st.mode ≡ false
    → Holds d df
    → let (r, w) = save_reports st inputs (calm d) in
      (all : List Report) × (r ≡ done tt)
      × (get_all_reports w ≡ (done all, w))
      × ((id : String) → lookup id all ≡ or_else (last_input id inputs) (lookup id df.reports))
save_reports-then-get_all_reports st d df inputs w h =
    save_reports-Saves
      (λ all. (id : String) → lookup id all ≡ or_else (last_input id inputs) (lookup id df.reports))
      st d df inputs w h (upsert_reports_lem inputs df.reports).0

-- In a store that is not read-only, and whose data file is absent or can be read and has no two
-- reports with the same id, GetAllReports after SaveReports gives a list without two such reports.
pub save_reports-Unique :
    (st : FileStore) (d : Disk) (df : DataFile) (inputs : List ReportInput)
    → is_read_only st.mode ≡ false
    → Holds d df
    → Unique df.reports
    → let w = (save_reports st inputs (calm d)).1 in
      (all : List Report) × (get_all_reports w ≡ (done all, w)) × Unique all
save_reports-Unique st d df inputs w h u =
    let (all, _, got, unique) =
      save_reports-Saves Unique st d df inputs w h ((upsert_reports_lem inputs df.reports).1 u) in
    (all, got, unique)

-- the reports that DeleteReportsBefore keeps
abbrev pub kept : Time → List Report → List Report
kept cutoff rs = select (λ r. not (ends_before cutoff r)) rs

kept_of_none :
    (cutoff : Time) (rs : List Report) → count (ends_before cutoff) rs ≡ 0 → kept cutoff rs ≡ rs
kept_of_none cutoff [] e = refl
kept_of_none cutoff (r ∷ rs) e = ground (arith, kept_of_none cutoff rs)

count-kept : (cutoff : Time) (rs : List Report) → count (ends_before cutoff) (kept cutoff rs) ≡ 0
count-kept cutoff [] = refl
count-kept cutoff (r ∷ rs) = ground (arith, count-kept cutoff rs)

-- one run of DeleteReportsBefore: what it gives, and what the data file then holds
record Deleted (st : FileStore) (d : Disk) (df : DataFile) (cutoff : Time) : Type 0 where
  disk : Disk
  run :
      delete_reports_before st cutoff (calm d)
      ≡ (done (count (ends_before cutoff) df.reports), calm disk)
  holds : Holds disk (with_reports df (kept cutoff df.reports))
  unchanged : count (ends_before cutoff) df.reports ≡ 0 → disk ≡ d

delete_reports_before_lem :
    (st : FileStore) (d : Disk) (df : DataFile) (cutoff : Time)
    → is_read_only st.mode ≡ false
    → Holds d df
    → Deleted st d df cutoff
unfolding delete_reports_before unless_read_only save_data_file syscall pure ◌>>=◌
delete_reports_before_lem st d df cutoff w h =
    let n = count (ends_before cutoff) df.reports in
    elim (Bool-cases (n == 0)) [
      | inl e ↦
          let z = (==_iff n 0).0 e in
          record {
            disk = d;
            run =
                ground (arith, load_data_file_lem d df h, partition_reports_lem cutoff df.reports);
            holds =
                subst (λ rs. Holds d (with_reports df rs)) (sym (kept_of_none cutoff df.reports z))
                  h;
            unchanged = λ _. refl;
          }
      | inr e ↦ record {
        disk = stored d df (kept cutoff df.reports);
        run = ground (arith, load_data_file_lem d df h, partition_reports_lem cutoff df.reports);
        holds = stored-Holds d df (kept cutoff df.reports) h;
        unchanged = λ z. absurd (ground (arith, ==_iff n 0));
      }
    ]

-- In a store that is not read-only, and whose data file is absent or can be read:
-- DeleteReportsBefore returns the number that CountReportsBefore gives for the same cutoff;
-- GetAllReports then gives the reports that do not end before the cutoff, in their order; and a
-- second DeleteReportsBefore with this cutoff returns 0 and changes nothing.
pub delete_reports_before-deletes :
    (st : FileStore) (d : Disk) (df : DataFile) (cutoff : Time)
    → is_read_only st.mode ≡ false
    → Holds d df
    → let (r, w) = delete_reports_before st cutoff (calm d) in
      (count_reports_before cutoff (calm d) ≡ (r, calm d))
      × (get_all_reports w ≡ (done (kept cutoff df.reports), w))
      × (delete_reports_before st cutoff w ≡ (done 0, w))
delete_reports_before-deletes st d df cutoff w h =
    let k = delete_reports_before_lem st d df cutoff w h in
    let df' = with_reports df (kept cutoff df.reports) in
    let again = delete_reports_before_lem st k.disk df' cutoff w k.holds in
    let z = count-kept cutoff df.reports in
    subst
      (λ out.
        (count_reports_before cutoff (calm d) ≡ (out.0, calm d))
        × (get_all_reports out.1 ≡ (done (kept cutoff df.reports), out.1))
        × (delete_reports_before st cutoff out.1 ≡ (done 0, out.1)))
      (sym k.run)
      (
        count_reports_before_lem d df cutoff h,
        get_all_reports_lem k.disk df' k.holds,
        cc (again.run, z, again.unchanged z),
      )
