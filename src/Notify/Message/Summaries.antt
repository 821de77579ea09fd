-- ===== src/Notify/Message/Summaries.antt =====
-- formatSummary of internal/notify/format.go.
use tlsrpt_digest.Base.{ℕ, true, List, [], ◌∷◌, ◌++◌, map, length, chunks, String}
use tlsrpt_digest.Base.Runes.{runes}
use tlsrpt_digest.Base.Int.{ℤ, pos}
use tlsrpt_digest.Base.Time.{Time}
use tlsrpt_digest.Notify.Message.{
  SlackField, color_good, SlackAttachment, SlackMessage, emoji_success, Printer, short_field,
  run_id_field,
}

-- `Summary`, with the map as the list of its entries, their keys sorted
pub record SortedSummary : Type 0 where
  pub start : Time
  pub end : Time
  pub organization_stats : List (String × ℤ)
  pub report_count : ℤ

module _ (p : Printer) where
  abbrev pub organization_field : String × ℤ → SlackField
  organization_field (organization, sessions) =
      short_field organization (p.number sessions ++ runes " successful sessions")

  abbrev pub good_attachment : List SlackField → SlackAttachment
  good_attachment fields = record { color = color_good; fields = fields }

  -- the loop over the chunks; the last one has the run
  abbrev pub summary_attachments : String → List (List (String × ℤ)) → List SlackAttachment
  summary_attachments run_id [] = []
  summary_attachments run_id (c ∷ []) =
      good_attachment (map organization_field c ++ (run_id_field run_id true ∷ [])) ∷ []
  summary_attachments run_id (c ∷ (c' ∷ cs)) =
      good_attachment (map organization_field c) ∷ summary_attachments run_id (c' ∷ cs)

  abbrev pub max_summary_org_fields : ℕ
  max_summary_org_fields = 9

  abbrev pub attachments_of : String → List (String × ℤ) → List SlackAttachment
  attachments_of run_id [] = good_attachment (run_id_field run_id true ∷ []) ∷ []
  attachments_of run_id (x ∷ xs) =
      summary_attachments run_id (chunks (length (x ∷ xs)) max_summary_org_fields (x ∷ xs))

  abbrev pub summary_text : SortedSummary → List ℕ
  summary_text s =
      emoji_success
      ++ (runes " TLS Report Summary\nPeriod: "
          ++ (p.date_here s.start
              ++ (runes " – "
                  ++ (p.date_here s.end
                      ++ (runes "\nReports: "
                          ++ (p.number s.report_count
                              ++ (runes "\nOrganizations: "
                                  ++ p.number (pos (length s.organization_stats)))))))))

  unfoldable pub format_summary : SortedSummary → String → SlackMessage
  format_summary s run_id = record {
    text = summary_text s;
    attachments = attachments_of run_id s.organization_stats;
  }
