-- ===== src/Tlsrpt/Parsing/Soundness.antt =====
-- internal/tlsrpt/tlsrpt.go: which attachments give a report, and which one.
use tlsrpt_digest.Base.{
  ◌≡◌, refl, sym, ◌∙◌, ◌↔◌, ℕ, ◌+◌, ◌≤◌, ltb, ltb→le, ltb→lt, ap, false, Option, none, some, List,
  length, str_eq, arith, Bool-cases, inl, inr,
}
use tlsrpt_digest.Base.Time.{is_zero}
use tlsrpt_digest.Tlsrpt.{Report, PolicyRecord}
use tlsrpt_digest.Tlsrpt.Parsing.{
  RawReport, Decoders, ParseResult, report, max_decompressed_size, unmarshal_report,
  validate_fields, limit_size, parse_gzip, parse_json, decompressed, with_policies, lacks_date,
}

-- what a report of RFC 8460 has to have
pub record IsComplete (r : Report) : Type 0 where
  pub has_organization : str_eq r.organization_name "" ≡ false
  pub has_report_id : str_eq r.report_id "" ≡ false
  pub has_start : is_zero r.date_range.start_datetime ≡ false
  pub has_end : is_zero r.date_range.end_datetime ≡ false

-- the decoded object that a report is
abbrev pub raw_of : Report → RawReport
raw_of r = record {
  organization_name = r.organization_name;
  report_id = r.report_id;
  date_range = r.date_range;
  policies = some r.policies;
}

-- the bytes that are decoded for an attachment, by its format
pub data Format : Type 0 where
  gzip json : Format

abbrev pub payload : Decoders → Format → List ℕ → Option (List ℕ)
payload c gzip bytes = c.gunzip (max_decompressed_size + 1) bytes
payload c json bytes = some bytes

abbrev pub parse : Decoders → Format → List ℕ → ParseResult
parse c gzip bytes = parse_gzip c bytes
parse c json bytes = parse_json c bytes

-- the attachment holds the encoding of a complete report, within the size limit
pub record Encodes (c : Decoders) (f : Format) (bytes : List ℕ) (r : Report) : Type 0 where
  pub plain : List ℕ
  pub is_payload : payload c f bytes ≡ some plain
  pub fits : length plain ≤ max_decompressed_size
  pub decodes : c.unmarshal plain ≡ some (raw_of r)
  pub complete : IsComplete r

-- the report that a decoded object is, given its policies
with_policies_inv :
    (raw : RawReport) (ps : Option (List PolicyRecord)) (r : Report)
    → raw.policies ≡ ps
    → with_policies raw ps ≡ report r
    → raw ≡ raw_of r
with_policies_inv raw none r e h = absurd (ground arith)
with_policies_inv raw (some ps) r e h = ground arith

with_policies_fields :
    (raw : RawReport) (ps : Option (List PolicyRecord)) (r : Report)
    → with_policies raw ps ≡ report r
    → (raw.organization_name ≡ r.organization_name)
      × ((raw.report_id ≡ r.report_id) × (raw.date_range ≡ r.date_range))
with_policies_fields raw none r h = absurd (ground arith)
with_policies_fields raw (some ps) r h = (ground arith, (ground arith, ground arith))

-- what the checks of the fields accept
accepted :
    (raw : RawReport) (r : Report)
    → validate_fields (some raw) ≡ report r
    → (with_policies raw raw.policies ≡ report r)
      × (str_eq raw.organization_name "" ≡ false)
      × (str_eq raw.report_id "" ≡ false)
      × (lacks_date raw.date_range ≡ false)
accepted raw r h = (ground arith, ground arith, ground arith, ground arith)

validate_complete : (r : Report) → IsComplete r → validate_fields (some (raw_of r)) ≡ report r
validate_complete r c =
    let a = c.has_organization in
    let b = c.has_report_id in let s = c.has_start in let e = c.has_end in ground arith

validate-IsComplete :
    (x : Option RawReport) (r : Report)
    → validate_fields x ≡ report r
    → (x ≡ some (raw_of r)) × IsComplete r
validate-IsComplete none r h = absurd (ground arith)
validate-IsComplete (some raw) r h =
    let (p, o, i, d) = accepted raw r h in
    let e = with_policies_inv raw raw.policies r refl p in
    (
      ap some e,
      record {
        has_organization = ground arith;
        has_report_id = ground arith;
        has_start = ground arith;
        has_end = ground arith;
      },
    )

parse-decompressed :
    (c : Decoders) (f : Format) (bytes : List ℕ)
    → parse c f bytes ≡ decompressed c (payload c f bytes)
unfolding parse_gzip parse_json
parse-decompressed c gzip bytes = refl
parse-decompressed c json bytes = refl

limit_size-Encodes :
    (c : Decoders) (plain : List ℕ) (r : Report)
    → limit_size c plain ≡ report r
    → (length plain ≤ max_decompressed_size) × (validate_fields (c.unmarshal plain) ≡ report r)
unfolding unmarshal_report
limit_size-Encodes c plain r h = elim (Bool-cases (ltb max_decompressed_size (length plain))) [
  | inl e ↦ absurd (ground arith)
  | inr e ↦ (ltb→le _ _ e, ground arith)
]

limit_size_complete :
    (c : Decoders) (plain : List ℕ) (r : Report)
    → length plain ≤ max_decompressed_size
    → validate_fields (c.unmarshal plain) ≡ report r
    → limit_size c plain ≡ report r
unfolding unmarshal_report
limit_size_complete c plain r le h = elim (Bool-cases (ltb max_decompressed_size (length plain))) [
  | inl e ↦ absurd (ground (arith, ltb→lt _ _ e))
  | inr e ↦ ground arith
]

decoded :
    (c : Decoders) (f : Format) (bytes : List ℕ) (r : Report) (o : Option (List ℕ))
    → payload c f bytes ≡ o
    → decompressed c o ≡ report r
    → Encodes c f bytes r
decoded c f bytes r none e h = absurd (ground arith)
decoded c f bytes r (some plain) e h =
    let (fits, v) = limit_size-Encodes c plain r h in
    let (u, complete) = validate-IsComplete (c.unmarshal plain) r v in
    record { plain = plain; is_payload = e; fits = fits; decodes = u; complete = complete }

encoded :
    (c : Decoders) (f : Format) (bytes : List ℕ) (r : Report)
    → Encodes c f bytes r
    → parse c f bytes ≡ report r
encoded c f bytes r x =
    parse-decompressed c f bytes
    ∙ ap (decompressed c) x.is_payload
    ∙ limit_size_complete c x.plain r x.fits
        (ap validate_fields x.decodes ∙ validate_complete r x.complete)

-- An attachment gives a report, in either format, exactly when its bytes (for gzip, the ones that the
-- decompression gives) are at most 10 MiB and decode to that report, and the report has an
-- organization name, a report id, both dates and a list of policies.
pub parse-Encodes :
    (c : Decoders) (f : Format) (bytes : List ℕ) (r : Report)
    → (parse c f bytes ≡ report r) ↔ Encodes c f bytes r
parse-Encodes c f bytes r = (
  λ h. decoded c f bytes r (payload c f bytes) refl (sym (parse-decompressed c f bytes) ∙ h),
  encoded c f bytes r,
)
