-- ===== src/Notify/Message/Complete.antt =====
-- The messages of internal/notify/format.go leave nothing out: the fields of their attachments, one
-- after the other, are those of all alerts, or of all organizations, and the run.
use tlsrpt_digest.Base.{
  ◌≡◌, refl, sym, ap, ◌∙◌, ℕ, suc, zero, ◌≤◌, ltb, true, false, List, [], ◌∷◌, ◌++◌, append_assoc,
  append-nil, map, length, length-append, length-map, length-take-le, take, drop, take-append-drop,
  chunks, concat, concat-chunks, String, arith, if_both,
}
use tlsrpt_digest.Base.Int.{ℤ}
use tlsrpt_digest.Notify.Message.{SlackField, SlackAttachment, Printer, run_id_field}
use tlsrpt_digest.Notify.Message.Alerts.{
  RecordedAlert, alert_fields, chunk_fields, overflow_fields, alert_attachments, split_alerts,
  max_with_overflow, format_alerts,
}
use tlsrpt_digest.Notify.Message.Summaries.{
  SortedSummary, organization_field, summary_attachments, attachments_of, format_summary,
}
use tlsrpt_digest.Notify.Message.Limits.{within_fields}

abbrev pub all_fields : List SlackAttachment → List SlackField
all_fields [] = []
all_fields (a ∷ xs) = a.fields ++ all_fields xs

module _ (p : Printer) (trim_space : String → String) where
  chunk_fields-append :
      (xs ys : List RecordedAlert)
      → chunk_fields p trim_space (xs ++ ys)
        ≡ chunk_fields p trim_space xs ++ chunk_fields p trim_space ys
  chunk_fields-append [] ys = refl
  chunk_fields-append (x ∷ xs) ys =
      ap (λ l. alert_fields p trim_space x ++ l) (chunk_fields-append xs ys)
      ∙ sym (
          append_assoc (alert_fields p trim_space x) (chunk_fields p trim_space xs)
            (chunk_fields p trim_space ys))

  -- the fields for these alerts shown, and those not shown
  abbrev pub AllShown : List RecordedAlert → String → List SlackAttachment → Type 0
  AllShown alerts run_id all =
      (shown : List RecordedAlert) × (overflow : List RecordedAlert) × (shown ++ overflow ≡ alerts)
      × (all_fields all
          ≡ chunk_fields p trim_space shown
            ++ (overflow_fields p trim_space overflow ++ (run_id_field run_id false ∷ [])))

  module _ (overflow : List RecordedAlert) (run_id : String) where
    attached_fields :
        (c : List RecordedAlert) (cs : List (List RecordedAlert))
        → all_fields (alert_attachments p trim_space overflow run_id (c ∷ cs))
          ≡ chunk_fields p trim_space (concat (c ∷ cs))
            ++ (overflow_fields p trim_space overflow ++ (run_id_field run_id false ∷ []))
    attached_fields c [] =
        append-nil _
        ∙ ap
            (λ l.
              chunk_fields p trim_space l
              ++ (overflow_fields p trim_space overflow ++ (run_id_field run_id false ∷ [])))
            (sym (append-nil c))
    attached_fields c (c' ∷ cs) =
        let last = overflow_fields p trim_space overflow ++ (run_id_field run_id false ∷ []) in
        ap (λ l. chunk_fields p trim_space c ++ l) (attached_fields c' cs)
        ∙ sym (
            append_assoc (chunk_fields p trim_space c)
              (chunk_fields p trim_space (concat (c' ∷ cs))) last)
        ∙ ap (λ l. l ++ last) (sym (chunk_fields-append c (concat (c' ∷ cs))))

    -- all of a list of alerts that is not empty
    shown_fields :
        (x : RecordedAlert) (xs : List RecordedAlert)
        → all_fields
            (alert_attachments p trim_space overflow run_id (chunks (length (x ∷ xs)) 3 (x ∷ xs)))
          ≡ chunk_fields p trim_space (x ∷ xs)
            ++ (overflow_fields p trim_space overflow ++ (run_id_field run_id false ∷ []))
    shown_fields x xs =
        let last = overflow_fields p trim_space overflow ++ (run_id_field run_id false ∷ []) in
        attached_fields (take 3 (x ∷ xs)) (chunks (length xs) 3 (drop 3 (x ∷ xs)))
        ∙ ap (λ l. chunk_fields p trim_space l ++ last)
            (concat-chunks 3 (omega arith) (length (x ∷ xs)) (x ∷ xs) (omega arith))

  abbrev Shows : List RecordedAlert → String → List RecordedAlert × List RecordedAlert → Type 0
  Shows alerts run_id (shown, overflow) =
      AllShown alerts run_id
        (alert_attachments p trim_space overflow run_id (chunks (length shown) 3 shown))

  Shows-split :
      (x : RecordedAlert) (xs : List RecordedAlert) (run_id : String)
      → Shows (x ∷ xs) run_id (split_alerts (x ∷ xs))
  unfolding split_alerts
  Shows-split x xs run_id =
      if_both (Shows (x ∷ xs) run_id) (ltb 300 (length (x ∷ xs)))
        (λ _. (
          take max_with_overflow (x ∷ xs),
          drop max_with_overflow (x ∷ xs),
          take-append-drop max_with_overflow (x ∷ xs),
          shown_fields (drop max_with_overflow (x ∷ xs)) run_id x (take 298 xs),
        ))
        (λ _. (x ∷ xs, [], append-nil (x ∷ xs), shown_fields [] run_id x xs))

-- The message for at least one alert shows the fields of the alerts one after the other, up to those
-- that it leaves to one field with their number, their organizations and their failed sessions, and
-- last the run.
pub format_alerts-shows_all :
    (p : Printer) (trim_space : String → String) (x : RecordedAlert) (xs : List RecordedAlert)
    (run_id : String)
    → AllShown p trim_space (x ∷ xs) run_id (format_alerts p trim_space (x ∷ xs) run_id).attachments
unfolding format_alerts
format_alerts-shows_all p trim_space x xs run_id = Shows-split p trim_space x xs run_id

module _ (p : Printer) (run_id : String) where
  map-append :
      (xs ys : List (String × ℤ))
      → map (organization_field p) (xs ++ ys)
        ≡ map (organization_field p) xs ++ map (organization_field p) ys
  map-append [] ys = refl
  map-append (x ∷ xs) ys = ap (λ l. organization_field p x ∷ l) (map-append xs ys)

  summary_fields :
      (c : List (String × ℤ)) (cs : List (List (String × ℤ)))
      → all_fields (summary_attachments p run_id (c ∷ cs))
        ≡ map (organization_field p) (concat (c ∷ cs)) ++ (run_id_field run_id true ∷ [])
  summary_fields c [] =
      append-nil _
      ∙ ap (λ l. map (organization_field p) l ++ (run_id_field run_id true ∷ []))
          (sym (append-nil c))
  summary_fields c (c' ∷ cs) =
      let last = run_id_field run_id true ∷ [] in
      ap (λ l. map (organization_field p) c ++ l) (summary_fields c' cs)
      ∙ sym (
          append_assoc (map (organization_field p) c)
            (map (organization_field p) (concat (c' ∷ cs))) last)
      ∙ ap (λ l. l ++ last) (sym (map-append c (concat (c' ∷ cs))))

  next_within :
      (c : List (String × ℤ)) (cs : List (List (String × ℤ)))
      → length c ≤ 9
      → within_fields 10 (summary_attachments p run_id cs) ≡ true
      → within_fields 10 (summary_attachments p run_id (c ∷ cs)) ≡ true
  next_within c [] h k =
      let l = length-append (map (organization_field p) c) (run_id_field run_id true ∷ []) in
      let m = length-map (organization_field p) c in ground arith
  next_within c (c' ∷ cs) h k = let m = length-map (organization_field p) c in ground arith

  summary_within :
      (fuel : ℕ) (xs : List (String × ℤ))
      → within_fields 10 (summary_attachments p run_id (chunks fuel 9 xs)) ≡ true
  summary_within zero xs = refl
  summary_within (suc fuel) [] = refl
  summary_within (suc fuel) (x ∷ xs) =
      next_within (take 9 (x ∷ xs)) (chunks fuel 9 (drop 9 (x ∷ xs))) (length-take-le 9 (x ∷ xs))
        (summary_within fuel (drop 9 (x ∷ xs)))

  attachments_shown :
      (stats : List (String × ℤ))
      → (all_fields (attachments_of p run_id stats)
          ≡ map (organization_field p) stats ++ (run_id_field run_id true ∷ []))
        × (within_fields 10 (attachments_of p run_id stats) ≡ true)
  attachments_shown [] = (refl, refl)
  attachments_shown (x ∷ xs) = (
    summary_fields (take 9 (x ∷ xs)) (chunks (length xs) 9 (drop 9 (x ∷ xs)))
        ∙ ap (λ l. map (organization_field p) l ++ (run_id_field run_id true ∷ []))
            (concat-chunks 9 (omega arith) (length (x ∷ xs)) (x ∷ xs) (omega arith)),
    summary_within (length (x ∷ xs)) (x ∷ xs),
  )

-- The message for a summary has one field for each organization, in their order, and last the run, in
-- attachments of at most ten fields.
pub format_summary-shows_all :
    (p : Printer) (s : SortedSummary) (run_id : String)
    → let m = format_summary p s run_id in
      (all_fields m.attachments
        ≡ map (organization_field p) s.organization_stats ++ (run_id_field run_id true ∷ []))
      × (within_fields 10 m.attachments ≡ true)
unfolding format_summary
format_summary-shows_all p s run_id = attachments_shown p run_id s.organization_stats
