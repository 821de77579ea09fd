-- ===== src/Tlsrpt.antt =====
-- internal/tlsrpt/tlsrpt.go: the report structure of RFC 8460. Counts are int64.
pub mod Parsing
use tlsrpt_digest.Base.{Bool, false, String, List, [], ◌∷◌, ◌||◌}
use tlsrpt_digest.Base.Int.{ℤ, pos, ltb_ℤ}
use tlsrpt_digest.Base.Time.{Time}

pub record Policy : Type 0 where
  pub policy_type : String
  pub policy_string : List String
  pub policy_domain : String
  pub mx_host : List String

pub record SessionCounts : Type 0 where
  pub total_successful_session_count : ℤ
  pub total_failure_session_count : ℤ

pub record FailureDetail : Type 0 where
  pub result_type : String
  pub sending_mta_ip : String
  pub receiving_mx_hostname : String
  pub receiving_ip : String
  pub failed_session_count : ℤ
  pub additional_information : String
  pub failure_reason_code : String

pub record PolicyRecord : Type 0 where
  pub policy : Policy
  pub summary : SessionCounts
  pub failure_details : List FailureDetail

pub record DateRange : Type 0 where
  pub start_datetime : Time
  pub end_datetime : Time

pub record Report : Type 0 where
  pub organization_name : String
  pub report_id : String
  pub date_range : DateRange
  pub policies : List PolicyRecord

-- the test of the loop body in `HasFailure`
abbrev pub fails : PolicyRecord → Bool
fails p = ltb_ℤ (pos 0) p.summary.total_failure_session_count

abbrev pub any_fails : List PolicyRecord → Bool
any_fails [] = false
any_fails (p ∷ ps) = fails p || any_fails ps

unfoldable pub has_failure : Report → Bool
has_failure r = any_fails r.policies
