-- ===== src/Store/Reports.antt =====
-- internal/store/reports.go: the data file tlsrpt.json and the operations on its reports.
pub mod Reads
pub mod Upsert
pub mod Files
use tlsrpt_digest.Base.{
  ℕ, zero, suc, ◌+◌, ◌-◌, ◌==◌, Bool, String, str_eq, Option, none, some, List, [], ◌∷◌, ◌++◌,
  length, set, if◌then◌else◌, not,
}
use tlsrpt_digest.Base.Time.{Time, before}
use tlsrpt_digest.Tlsrpt.{Report}
use tlsrpt_digest.Store.Types.{
  ReportInput, DataFile, data_file_version, File, parsed, garbage, data_corrupted,
}
use tlsrpt_digest.Store.Io.{M, pure, throw, effect, look, ◌>>=◌, ◌>>◌}
use tlsrpt_digest.Store.Sentinel.{FileStore, unless_read_only}
use tlsrpt_digest.Store.Open.{empty_data_file}

-- both decoding errors are joined with ErrDataCorrupted
abbrev pub decode_data_file : Option (File DataFile) → M DataFile
decode_data_file none = pure empty_data_file
decode_data_file (some garbage) = throw data_corrupted
decode_data_file (some (parsed df)) =
    if df.version == data_file_version then pure df else throw data_corrupted

unfoldable pub load_data_file : M DataFile
unfolding pure throw ◌>>=◌
load_data_file = do f ← look (λ d. d.data_file); decode_data_file f

unfoldable pub save_data_file : DataFile → M Unit
save_data_file df = effect (λ d. record d { data_file = some (parsed df) })

-- the map from a report id to its place in the slice
abbrev pub Index : Type 0
Index = String → Option ℕ

abbrev pub put : String → ℕ → Index → Index
put key i index id = if str_eq key id then some i else index id

-- `for i, r := range df.Reports { reportIdx[r.ReportID] = i }`, from the place `i` on
abbrev pub index_reports : ℕ → List Report → Index → Index
index_reports i [] index = index
index_reports i (r ∷ rs) index = index_reports (suc i) rs (put r.report_id i index)

abbrev pub store_report : Report → Option ℕ → List Report → Index → List Report × Index
store_report r (some i) rs index = (set rs i r, index)
store_report r none rs index =
    let rs' = rs ++ (r ∷ []) in (rs', put r.report_id (length rs' - 1) index)

-- the loop over the inputs
abbrev pub upsert_all : List ReportInput → List Report × Index → List Report
upsert_all [] (rs, index) = rs
upsert_all (x ∷ xs) (rs, index) =
    upsert_all xs (store_report x.report (index x.report.report_id) rs index)

unfoldable pub upsert_reports : List ReportInput → List Report → List Report
upsert_reports inputs rs = upsert_all inputs (rs, index_reports 0 rs (λ _. none))

unfoldable pub save_reports : FileStore → List ReportInput → M Unit
unfolding unless_read_only load_data_file save_data_file upsert_reports ◌>>=◌
save_reports st inputs = unless_read_only st (do
  df ← load_data_file
  save_data_file (record df { reports = upsert_reports inputs df.reports }))

unfoldable pub get_all_reports : M (List Report)
unfolding load_data_file pure ◌>>=◌
get_all_reports = do df ← load_data_file; pure df.reports

abbrev pub ends_before : Time → Report → Bool
ends_before cutoff r = before r.date_range.end_datetime cutoff

-- the loop of DeleteReportsBefore: the number deleted, and the surviving reports
unfoldable pub partition_reports : Time → List Report → ℕ × List Report
partition_reports cutoff [] = (0, [])
partition_reports cutoff (r ∷ rs) =
    let (deleted, surviving) = partition_reports cutoff rs in
    if ends_before cutoff r then (suc deleted, surviving) else (deleted, r ∷ surviving)

unfoldable pub delete_reports_before : FileStore → Time → M ℕ
unfolding unless_read_only load_data_file save_data_file partition_reports pure ◌>>=◌
delete_reports_before st cutoff = unless_read_only st (do
  df ← load_data_file
  let (deleted, surviving) = partition_reports cutoff df.reports
  if deleted == 0
      then pure 0
      else (do save_data_file (record df { reports = surviving }); pure deleted))

-- the loop of CountReportsBefore
abbrev pub count_before : Time → List Report → ℕ → ℕ
count_before cutoff [] n = n
count_before cutoff (r ∷ rs) n = count_before cutoff rs (if ends_before cutoff r then suc n else n)

unfoldable pub count_reports_before : Time → M ℕ
unfolding load_data_file pure ◌>>=◌
count_reports_before cutoff = do df ← load_data_file; pure (count_before cutoff df.reports 0)
