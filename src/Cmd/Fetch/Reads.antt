-- ===== src/Cmd/Fetch/Reads.antt =====
-- The steps of cmd/tlsrpt-digest/fetch.go that only look at the store and notify.
use tlsrpt_digest.Base.{
  refl, ℕ, not, ◌&&◌, ◌||◌, ◌==◌, Option, none, some, ◌⊎◌, inl, inr, List, [], ◌∷◌,
}
use tlsrpt_digest.Base.Time.{Time}
use tlsrpt_digest.Mailparse.{
  Attachment, Part, Attachments, attachments, mail_error, extract_attachments,
}
use tlsrpt_digest.Tlsrpt.{has_failure}
use tlsrpt_digest.Tlsrpt.Parsing.{report, rejected}
use tlsrpt_digest.Store.Types.{StoreError}
use tlsrpt_digest.Store.Untouched.{Untouched, Any, Untouched-look, Untouched-look_some}
use tlsrpt_digest.Notify.Kinds.{SystemErrorKind}
use tlsrpt_digest.Cmd.Recover.{exit_ok}
use tlsrpt_digest.Cmd.Session.{Session, flushed, reported}
use tlsrpt_digest.Cmd.Session.Stable.{
  Stable, Keeps, Keeps-bind, Keeps-return, Keeps-stop, Keeps-if, Keeps-emit, Keeps-call,
  log_warn-Keeps, log_alerts-Keeps,
}
use tlsrpt_digest.Cmd.Attachments.{AttachmentResult, not_tlsrpt, parsed, parse_tlsrpt_attachment}
use tlsrpt_digest.Cmd.Fetch.{
  MessageMeta, FetchRunner, BootContext, FetchMsgState, flush, notify_fetch_system_error, fail_with,
  local_email_size, load_local_eml,
}
use tlsrpt_digest.Cmd.Fetch.Download.{build_fetch_states, sized}
use tlsrpt_digest.Cmd.Fetch.Collect.{
  process_result, process_attachments, warn_parse, extracted_from, read_mail, loaded_eml,
  collect_eml, collect_message, fetch_collect_reports,
}
use tlsrpt_digest.Cmd.Fetch.Command.{log_fetch_dry_run_summary, fetch_dry_run_exit}

local_email_size-Untouched : (uid v : ℕ) (t : Time) → Untouched Any (local_email_size uid v t)
unfolding local_email_size
local_email_size-Untouched uid v t = Untouched-look _

load_local_eml-Untouched : (uid v : ℕ) (t : Time) → Untouched Any (load_local_eml uid v t)
unfolding load_local_eml
load_local_eml-Untouched uid v t = Untouched-look_some _

module _ {I : Session → Type 0} (k : Stable I) (r : FetchRunner) where
  pub flush-Keeps : Keeps I (flush r)
  unfolding flush
  flush-Keeps = record { at = λ s h. k.event (flushed (r.flush s.trace)) refl s h }

  notify-Keeps : (kind : SystemErrorKind) → Keeps I (notify_fetch_system_error r kind)
  unfolding notify_fetch_system_error
  notify-Keeps kind =
      Keeps-bind _ _ (Keeps-emit k (reported kind) refl)
        (λ _. Keeps-bind _ _ flush-Keeps (λ _. Keeps-return tt))

  pub fail_with-Keeps : {A : Type 0} (kind : SystemErrorKind) → Keeps I (fail_with {A = A} r kind)
  fail_with-Keeps kind = Keeps-bind _ _ (notify-Keeps kind) (λ _. Keeps-stop _)

  sized-Keeps :
      (meta : MessageMeta) (v : ℕ) (x : StoreError ⊎ Option ℕ) → Keeps I (sized r meta v x)
  sized-Keeps meta v (inl e) = Keeps-stop _
  sized-Keeps meta v (inr none) = Keeps-return _
  sized-Keeps meta v (inr (some n)) =
      Keeps-if (n == meta.size) (Keeps-return _)
        (Keeps-bind _ _ (log_warn-Keeps k _ _ _ _) (λ _. Keeps-return _))

  pub build_fetch_states-Keeps :
      (metas : List MessageMeta) (v : ℕ) → Keeps I (build_fetch_states r metas v)
  unfolding build_fetch_states
  build_fetch_states-Keeps [] v = Keeps-return []
  build_fetch_states-Keeps (meta ∷ metas) v =
      Keeps-bind _ _ (Keeps-call k _ (local_email_size-Untouched _ _ _)) (λ x.
        Keeps-bind _ _ (sized-Keeps meta v x)
          (λ _. Keeps-bind _ _ (build_fetch_states-Keeps metas v) (λ _. Keeps-return _)))

  summary-Keeps : (states : List FetchMsgState) → Keeps I (log_fetch_dry_run_summary states)
  unfolding log_fetch_dry_run_summary
  summary-Keeps states = Keeps-if _ (Keeps-emit k _ refl) (Keeps-emit k _ refl)

  pub fetch_dry_run_exit-Keeps :
      (states : List FetchMsgState) → Keeps I (fetch_dry_run_exit r states)
  unfolding fetch_dry_run_exit
  fetch_dry_run_exit-Keeps states =
      Keeps-bind _ _ (summary-Keeps states)
        (λ _. Keeps-bind _ _ flush-Keeps (λ _. Keeps-return exit_ok))

  module _ (s : FetchMsgState) (v : ℕ) where
    process_result-Keeps : (x : AttachmentResult) → Keeps I (process_result s v x)
    process_result-Keeps not_tlsrpt = Keeps-return _
    process_result-Keeps (parsed (rejected e)) =
        Keeps-bind _ _ (log_warn-Keeps k _ _ _ _) (λ _. Keeps-return _)
    process_result-Keeps (parsed (report rep)) =
        Keeps-if (not s.meta.seen && has_failure rep)
          (Keeps-bind _ _ (log_alerts-Keeps k rep) (λ _. Keeps-return _)) (Keeps-return _)

    process_attachments-Keeps : (atts : List Attachment) → Keeps I (process_attachments r atts s v)
    unfolding process_attachments
    process_attachments-Keeps [] = Keeps-return _
    process_attachments-Keeps (att ∷ atts) =
        Keeps-bind _ _ (process_result-Keeps (parse_tlsrpt_attachment r.lib att))
          (λ _. Keeps-bind _ _ (process_attachments-Keeps atts) (λ _. Keeps-return _))

    warn_parse-Keeps : Keeps I (warn_parse s v)
    warn_parse-Keeps = Keeps-bind _ _ (log_warn-Keeps k _ _ _ _) (λ _. Keeps-return _)

    extracted-Keeps : (x : Attachments) → Keeps I (extracted_from r s v x)
    extracted-Keeps (mail_error e) = warn_parse-Keeps
    extracted-Keeps (attachments atts) = process_attachments-Keeps atts

    module _ (boot : BootContext) where
      read_mail-Keeps : (x : Option Part) → Keeps I (read_mail r boot s v x)
      read_mail-Keeps none = warn_parse-Keeps
      read_mail-Keeps (some message) =
          extracted-Keeps
            (extract_attachments r.lib.decode_header boot.config.imap.max_message_bytes message)

      loaded-Keeps : (x : StoreError ⊎ List ℕ) → Keeps I (loaded_eml r boot s v x)
      loaded-Keeps (inl e) = Keeps-stop _
      loaded-Keeps (inr raw) = read_mail-Keeps (r.lib.read_message raw)

      collect_eml-Keeps : (x : Option (List ℕ)) → Keeps I (collect_eml r boot s v x)
      collect_eml-Keeps (some raw) = read_mail-Keeps (r.lib.read_message raw)
      collect_eml-Keeps none =
          Keeps-if (not s.eml_existed_before || s.meta.seen) (Keeps-return _)
            (Keeps-bind _ _ (Keeps-call k _ (load_local_eml-Untouched _ _ _)) loaded-Keeps)

      collect_message-Keeps : Keeps I (collect_message r boot v s)
      unfolding collect_message
      collect_message-Keeps =
          Keeps-if (s.meta.seen && s.eml_existed_before) (Keeps-return _)
            (collect_eml-Keeps s.raw_eml)

  pub fetch_collect_reports-Keeps :
      (boot : BootContext) (v : ℕ) (states : List FetchMsgState)
      → Keeps I (fetch_collect_reports r boot v states)
  unfolding fetch_collect_reports
  fetch_collect_reports-Keeps boot v [] = Keeps-return _
  fetch_collect_reports-Keeps boot v (s ∷ states) =
      Keeps-bind _ _ (collect_message-Keeps s v boot)
        (λ _. Keeps-bind _ _ (fetch_collect_reports-Keeps boot v states) (λ _. Keeps-return _))
