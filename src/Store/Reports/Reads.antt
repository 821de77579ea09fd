-- ===== src/Store/Reports/Reads.antt =====
-- Reading tlsrpt.json in internal/store/reports.go leaves the store as it is.
use tlsrpt_digest.Base.{◌==◌, Option, none, some}
use tlsrpt_digest.Store.Types.{DataFile, data_file_version, File, parsed, garbage}
use tlsrpt_digest.Store.Untouched.{
  Untouched, Any, Untouched-pure, Untouched-throw, Untouched-look, Untouched-bind, Untouched-if,
}
use tlsrpt_digest.Store.Reports.{load_data_file, decode_data_file}

decoded_data : (f : Option (File DataFile)) → Untouched Any (decode_data_file f)
decoded_data none = Untouched-pure _ tt
decoded_data (some garbage) = Untouched-throw _
decoded_data (some (parsed df)) =
    Untouched-if (df.version == data_file_version) (Untouched-pure _ tt) (Untouched-throw _)

pub load_data_file-Untouched : Untouched Any load_data_file
unfolding load_data_file
load_data_file-Untouched =
    Untouched-bind Any _ _ (Untouched-look (λ d. d.data_file)) (λ f _. decoded_data f)
