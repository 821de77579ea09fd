-- ===== src/Cmd/Reprocess/Rebuilt.antt =====
-- What is recorded after a run of cmd/tlsrpt-digest/reprocess.go that ends with exit code 0.
use tlsrpt_digest.Base.{
  ◌≡◌, refl, sym, ap, subst, ◌∙◌, Bool, true, false, ◌&&◌, Option, ◌⊎◌, inl, inr, List, [], ◌∷◌,
  ◌++◌,
}
use tlsrpt_digest.Base.Int.{ℤ}
use tlsrpt_digest.Tlsrpt.{has_failure}
use tlsrpt_digest.Tlsrpt.Parsing.{report, rejected}
use tlsrpt_digest.Mailparse.{Attachment, Attachments, attachments, mail_error, extract_attachments}
use tlsrpt_digest.Store.Types.{StoreError, Eml, ReportInput, Disk}
use tlsrpt_digest.Store.Partial.Writes.{
  Recorded, AfterIndex, save_email_metas-Partial, save_reports-Partial,
}
use tlsrpt_digest.Store.Emails.Load.{LoadedEmail, LoadEmailFailed}
use tlsrpt_digest.Cmd.Recover.{exit_ok}
use tlsrpt_digest.Cmd.Session.{Session, Run, return, ◌>>=◌}
use tlsrpt_digest.Cmd.Session.Logic.{
  Hoare, Hoare-return, Hoare-stop, Hoare-if, Hoare-emit, Hoare-bind, Hoare-given,
}
use tlsrpt_digest.Cmd.Session.Stable.{
  Stable, Keeps, Keeps-bind, Keeps-return, log_warn-Keeps, log_alerts-Keeps,
}
use tlsrpt_digest.Cmd.Session.Success.{Whatever, On, Succeeds, call-Hoare, On-Stable, Hoare-forget}
use tlsrpt_digest.Cmd.Attachments.{
  GoLibrary, AttachmentResult, not_tlsrpt, parsed, parse_tlsrpt_attachment,
}
use tlsrpt_digest.Cmd.Reprocess.{
  Outside, ReprocessContext, flush, build_reprocess_metas, warn_mail, input_of, take_result,
  take_attachments, take_mail, reprocess_collect_reports, warn_failures, or_stop, unless_flushed,
  record_reports, rebuild,
}

-- the reports of a mail's attachments, those that are refused left out
abbrev accepted : LoadedEmail → AttachmentResult → List ReportInput
accepted e not_tlsrpt = []
accepted e (parsed (rejected x)) = []
accepted e (parsed (report rep)) = input_of e rep ∷ []

abbrev attached : GoLibrary → LoadedEmail → List Attachment → List ReportInput
attached lib e [] = []
attached lib e (att ∷ atts) = accepted e (parse_tlsrpt_attachment lib att) ++ attached lib e atts

abbrev in_mail : GoLibrary → LoadedEmail → Attachments → List ReportInput
in_mail lib e (mail_error x) = []
in_mail lib e (attachments atts) = attached lib e atts

-- the reports in the mails, with a limit on the bytes of the attachments of each
abbrev pub reports_of : GoLibrary → ℤ → List LoadedEmail → List ReportInput
reports_of lib limit [] = []
reports_of lib limit (e ∷ es) =
    in_mail lib e (extract_attachments lib.decode_header limit e.message) ++ reports_of lib limit es

module _ {I : Session → Type 0} (k : Stable I) where
  -- `I` is kept, and the value given
  abbrev Yields : Run (List ReportInput) → List ReportInput → Type 0
  Yields m v = Hoare I m (λ a s. I s × (a ≡ v)) Whatever

  Yields-return : (v : List ReportInput) → Yields (return v) v
  Yields-return v = Hoare-return v (λ s h. (h, refl))

  Yields-after : (m : Run Unit) (v : List ReportInput) → Keeps I m → Yields (m >>= λ _. return v) v
  Yields-after m v h = Hoare-bind (λ _. I) _ _ (Hoare-forget h) (λ _. Yields-return v)

  Yields-both :
      (m n : Run (List ReportInput)) (v w : List ReportInput)
      → Yields m v
      → Yields n w
      → Yields (m >>= λ a. n >>= λ b. return (a ++ b)) (v ++ w)
  Yields-both m n v w h k' =
      Hoare-bind (λ a s. I s × (a ≡ v)) _ _ h
        (λ a. Hoare-given (λ e.
          Hoare-bind (λ b s. I s × (b ≡ w)) _ _ k'
            (λ b. Hoare-given (λ e'. Hoare-return (a ++ b) (λ s i. (i, sum a b v w e e'))))))
    where
      sum : (a b v w : List ReportInput) → a ≡ v → b ≡ w → (a ++ b) ≡ (v ++ w)
      sum a b v w e e' = ap (λ x. x ++ b) e ∙ ap (λ y. v ++ y) e'

  module _ (lib : GoLibrary) (send : Bool) (e : LoadedEmail) where
    warn_mail-Yields : Yields (warn_mail send e) []
    warn_mail-Yields =
        Hoare-if send (λ _. Yields-after _ [] (log_warn-Keeps k _ _ _ _)) (λ _. Yields-return [])

    take_result-Yields : (x : AttachmentResult) → Yields (take_result send e x) (accepted e x)
    take_result-Yields not_tlsrpt = Yields-return []
    take_result-Yields (parsed (rejected x)) = warn_mail-Yields
    take_result-Yields (parsed (report rep)) =
        Hoare-if (send && has_failure rep)
          (λ _. Yields-after _ (input_of e rep ∷ []) (log_alerts-Keeps k rep))
          (λ _. Yields-return (input_of e rep ∷ []))

    take_attachments-Yields :
        (atts : List Attachment) → Yields (take_attachments lib send e atts) (attached lib e atts)
    unfolding take_attachments
    take_attachments-Yields [] = Yields-return []
    take_attachments-Yields (att ∷ atts) =
        Yields-both _ _ _ _ (take_result-Yields (parse_tlsrpt_attachment lib att))
          (take_attachments-Yields atts)

    take_mail-Yields : (x : Attachments) → Yields (take_mail lib send e x) (in_mail lib e x)
    take_mail-Yields (mail_error x) = warn_mail-Yields
    take_mail-Yields (attachments atts) = take_attachments-Yields atts

  module _ (lib : GoLibrary) (boot : ReprocessContext) where
    collect-Yields :
        (es : List LoadedEmail)
        → Yields
            (reprocess_collect_reports lib boot es)
            (reports_of lib boot.config.imap.max_message_bytes es)
    unfolding reprocess_collect_reports
    collect-Yields [] = Yields-return []
    collect-Yields (e ∷ es) =
        Yields-both _ _ _ _
          (take_mail-Yields lib boot.reprocess_notify e
            (extract_attachments lib.decode_header boot.config.imap.max_message_bytes e.message))
          (collect-Yields es)

  pub warn_failures-Keeps : (fs : List LoadEmailFailed) → Keeps I (warn_failures fs)
  unfolding warn_failures
  warn_failures-Keeps [] = Keeps-return tt
  warn_failures-Keeps (f ∷ fs) =
      Keeps-bind _ _ (log_warn-Keeps k _ _ _ _) (λ _. warn_failures-Keeps fs)

module _ (o : Outside) (boot : ReprocessContext) where
  abbrev found_reports : List LoadedEmail → List ReportInput
  found_reports es = reports_of o.lib boot.config.imap.max_message_bytes es

  module _ (K : Option (List Eml) → Type 0) where
    -- the mails as they were, with the entries and the reports of the mails that were loaded
    abbrev pub Recalled : List LoadedEmail → Disk → Type 0
    Recalled es d = K d.emails × Recorded (build_reprocess_metas es) (found_reports es) d.data_file

    passes :
        (P : Disk → Type 0) (Q : Unit {0} → Disk → Type 0) (x : StoreError ⊎ Unit {0})
        → Hoare (Succeeds P Q x) (or_stop x) (λ _. On (Q tt)) Whatever
    passes P Q (inl e) = Hoare-stop _ (λ _ _. tt)
    passes P Q (inr u) = Hoare-return tt (λ s h. h)

    unless_flushed-Recalled :
        (P : Disk → Type 0) (ok : Bool) → Hoare (On P) (unless_flushed ok) (λ _. On P) Whatever
    unless_flushed-Recalled P true = Hoare-return exit_ok (λ s h. h)
    unless_flushed-Recalled P false = Hoare-stop _ (λ _ _. tt)

    flush-On : (P : Disk → Type 0) → Hoare (On P) (flush o) (λ _. On P) Whatever
    unfolding flush
    flush-On P = record { at = λ s h. h }

    module _ (es : List LoadedEmail) where
      abbrev Entered : Disk → Type 0
      Entered = AfterIndex K (build_reprocess_metas es)

      record_reports-Recalled :
          Hoare
            (On Entered)
            (record_reports o boot (found_reports es))
            (λ _. On (Recalled es))
            Whatever
      unfolding record_reports
      record_reports-Recalled =
          Hoare-bind (Succeeds Entered (λ _. Recalled es)) _ _
            (call-Hoare _ _ _
              (save_reports-Partial K boot.store (build_reprocess_metas es) (found_reports es)))
            (λ x.
              Hoare-bind (λ _. On (Recalled es)) _ _ (passes Entered (λ _. Recalled es) x)
                (λ _.
                  Hoare-bind (λ _. On (Recalled es)) _ _
                    (Hoare-emit {Q = λ _. On (Recalled es)} _ (λ s h. h))
                    (λ _.
                      Hoare-if boot.reprocess_notify
                        (λ _.
                          Hoare-bind (λ _. On (Recalled es)) _ _ (flush-On (Recalled es))
                            (unless_flushed-Recalled (Recalled es)))
                        (λ _. Hoare-return exit_ok (λ s h. h)))))

      pub rebuild-Recalled :
          Hoare (On (λ d. K d.emails)) (rebuild o boot es) (λ _. On (Recalled es)) Whatever
      unfolding rebuild
      rebuild-Recalled =
          Hoare-bind (Succeeds (λ d. K d.emails) (λ _. Entered)) _ _
            (call-Hoare _ _ _ (save_email_metas-Partial K boot.store (build_reprocess_metas es)))
            (λ x.
              Hoare-bind (λ _. On Entered) _ _ (passes (λ d. K d.emails) (λ _. Entered) x)
                (λ _.
                  Hoare-bind (λ _. On Entered) _ _ (Hoare-emit {Q = λ _. On Entered} _ (λ s h. h))
                    (λ _.
                      Hoare-bind (λ reports s. On Entered s × (reports ≡ found_reports es)) _ _
                        (collect-Yields (On-Stable Entered) o.lib boot es)
                        (λ reports. Hoare-given (λ e.
                          subst
                            (λ rs.
                              Hoare (On Entered) (record_reports o boot rs) (λ _. On (Recalled es))
                                Whatever)
                            (sym e) record_reports-Recalled)))))
