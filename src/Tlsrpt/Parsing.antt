-- ===== src/Tlsrpt/Parsing.antt =====
-- internal/tlsrpt/tlsrpt.go: a report from the bytes of an attachment. encoding/json and
-- compress/gzip are parameters.
pub mod Soundness
use tlsrpt_digest.Base.{
  ◌≡◌, refl, ◌↔◌, ℕ, ◌+◌, ◌*◌, ◌≤◌, ltb, Bool, true, false, ◌||◌, Option, none, some, List, length,
  String, str_eq, if◌then◌else◌, arith,
}
use tlsrpt_digest.Base.Time.{Time, is_zero}
use tlsrpt_digest.Tlsrpt.{DateRange, PolicyRecord, Report}

-- the fields that json.Unmarshal sets: a zero value where one is absent, and no slice of policies
-- where that one is absent or null
pub record RawReport : Type 0 where
  pub organization_name : String
  pub report_id : String
  pub date_range : DateRange
  pub policies : Option (List PolicyRecord)

-- the two decoders: `gunzip n` reads at most n bytes of what a gzip stream holds, and gives `none`
-- where the stream does not open, is broken before that, or does not close
pub record Decoders : Type 0 where
  pub unmarshal : List ℕ → Option RawReport
  pub gunzip : ℕ → List ℕ → Option (List ℕ)

pub data ParseError : Type 0 where
  decompress invalid_json : ParseError
  decompressed_size_limit_exceeded : ℕ → ParseError
  missing_required_field : String → ParseError

pub data ParseResult : Type 0 where
  report : Report → ParseResult
  rejected : ParseError → ParseResult

abbrev pub max_decompressed_size : ℕ
max_decompressed_size = 10 * 1024 * 1024

abbrev pub with_policies : RawReport → Option (List PolicyRecord) → ParseResult
with_policies raw none = rejected (missing_required_field "policies")
with_policies raw (some ps) = report (record {
  organization_name = raw.organization_name;
  report_id = raw.report_id;
  date_range = raw.date_range;
  policies = ps;
})

abbrev pub lacks_date : DateRange → Bool
lacks_date r = is_zero r.start_datetime || is_zero r.end_datetime

abbrev pub validate_fields : Option RawReport → ParseResult
validate_fields none = rejected invalid_json
validate_fields (some raw) =
    if str_eq raw.organization_name ""
    then rejected (missing_required_field "organization-name")
    else if str_eq raw.report_id ""
    then rejected (missing_required_field "report-id")
    else if lacks_date raw.date_range
    then rejected (missing_required_field "date-range")
    else with_policies raw raw.policies

-- `parseJSON`
unfoldable pub unmarshal_report : Decoders → List ℕ → ParseResult
unmarshal_report c bytes = validate_fields (c.unmarshal bytes)

abbrev pub limit_size : Decoders → List ℕ → ParseResult
limit_size c bytes =
    if ltb max_decompressed_size (length bytes)
    then rejected (decompressed_size_limit_exceeded (length bytes))
    else unmarshal_report c bytes

abbrev pub decompressed : Decoders → Option (List ℕ) → ParseResult
decompressed c none = rejected decompress
decompressed c (some bytes) = limit_size c bytes

unfoldable pub parse_gzip : Decoders → List ℕ → ParseResult
unfolding unmarshal_report
parse_gzip c bytes = decompressed c (c.gunzip (max_decompressed_size + 1) bytes)

-- `ParseJSON`
unfoldable pub parse_json : Decoders → List ℕ → ParseResult
unfolding unmarshal_report
parse_json c bytes = limit_size c bytes
