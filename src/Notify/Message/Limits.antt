-- ===== src/Notify/Message/Limits.antt =====
-- The messages of internal/notify/format.go are within the limits of Slack: at most 100 attachments of
-- at most ten fields each.
use tlsrpt_digest.Base.{
  ◌≡◌, refl, ap, take-append-drop, ℕ, zero, suc, ◌+◌, ◌-◌, ◌*◌, ◌%◌, ◌≤◌, leb, ltb, Bool, true,
  false, ◌&&◌, List, [], ◌∷◌, ◌++◌, length, length-append, length-take-le, length-drop,
  length-take_le, take, drop, chunks, String, str_eq, arith, Bool-cases, ◌⊎◌, inl, inr, if_both,
}
use tlsrpt_digest.Notify.Message.{SlackField, SlackAttachment, Printer, run_id_field}
use tlsrpt_digest.Notify.Message.Alerts.{
  RecordedAlert, report_id_fields, details_fields, alert_fields, chunk_fields, overflow_fields,
  alert_attachments, split_alerts, max_with_overflow, format_alerts, build_failure_details_text,
}

abbrev pub within_fields : ℕ → List SlackAttachment → Bool
within_fields limit [] = true
within_fields limit (a ∷ xs) = leb (length a.fields) limit && within_fields limit xs

module _ (p : Printer) (trim_space : String → String) where
  report_id_fields_le : (a : _) → length (report_id_fields p trim_space a) ≤ 1
  report_id_fields_le a =
      if_both (λ l. length l ≤ 1) (str_eq a.report_id "") (λ _. omega arith) (λ _. omega arith)

  details_fields_le : (text : List ℕ) → length (details_fields p trim_space text) ≤ 1
  details_fields_le [] = omega arith
  details_fields_le (r ∷ rs) = omega arith

  alert_fields_le : (a : RecordedAlert) → length (alert_fields p trim_space a) ≤ 3
  unfolding alert_fields
  alert_fields_le a =
      let text = build_failure_details_text p trim_space a in
      omega (
        arith,
        length-append (report_id_fields p trim_space a.alert) (details_fields p trim_space text),
        report_id_fields_le a.alert,
        details_fields_le text,
      )

  chunk_fields_le : (c : List RecordedAlert) → length (chunk_fields p trim_space c) ≤ 3 * length c
  chunk_fields_le [] = omega arith
  chunk_fields_le (a ∷ xs) = omega (
    arith,
    length-append (alert_fields p trim_space a) (chunk_fields p trim_space xs),
    alert_fields_le a,
    chunk_fields_le xs,
  )

  -- where there is an overflow, it has a field, and the last chunk has less than three alerts
  abbrev Room : List RecordedAlert → ℕ → Type 0
  Room overflow n = (overflow ≡ []) ⊎ (n % 3 ≡ 2)

  module _ (overflow : List RecordedAlert) (run_id : String) where
    abbrev last_fields : List RecordedAlert → List SlackField
    last_fields c =
        chunk_fields p trim_space c
        ++ (overflow_fields p trim_space overflow ++ (run_id_field run_id false ∷ []))

    abbrev attached : List (List RecordedAlert) → List SlackAttachment
    attached cs = alert_attachments p trim_space overflow run_id cs

    length-last_fields :
        (c : List RecordedAlert)
        → length (last_fields c)
          ≡ length (chunk_fields p trim_space c)
            + (length (overflow_fields p trim_space overflow) + 1)
    length-last_fields c = omega (
      arith,
      length-append (chunk_fields p trim_space c)
          (overflow_fields p trim_space overflow ++ (run_id_field run_id false ∷ [])),
      length-append (overflow_fields p trim_space overflow) (run_id_field run_id false ∷ []),
    )

    Room-le :
        (o : List RecordedAlert) (n : ℕ)
        → Room o n
        → n ≤ 3
        → 3 * n + length (overflow_fields p trim_space o) ≤ 9
    Room-le [] n room h = omega arith
    Room-le (a ∷ xs) n (inl e) h = absurd (ground arith)
    Room-le (a ∷ xs) n (inr e) h = omega arith

    last_le :
        (c : List RecordedAlert)
        → Room overflow (length c)
        → length c ≤ 3
        → length (last_fields c) ≤ 10
    last_le c room h =
        omega (arith, length-last_fields c, chunk_fields_le c, Room-le overflow (length c) room h)

    next_within :
        (c : List RecordedAlert) (cs : List (List RecordedAlert))
        → length c ≤ 3
        → (cs ≡ [] → Room overflow (length c))
        → within_fields 10 (attached cs) ≡ true
        → within_fields 10 (attached (c ∷ cs)) ≡ true
    next_within c [] h room k = let l = last_le c (room refl) h in ground arith
    next_within c (c' ∷ cs) h room k = let l = chunk_fields_le c in ground arith

    no_chunks :
        (fuel : ℕ) (xs : List RecordedAlert)
        → length xs ≤ fuel
        → chunks fuel 3 xs ≡ []
        → length xs ≡ 0
    no_chunks fuel [] h e = refl
    no_chunks zero (x ∷ xs) h e = absurd (omega arith)
    no_chunks (suc fuel) (x ∷ xs) h e = absurd (ground arith)

    Room-later : (n : ℕ) → 3 ≤ n → Room overflow n → Room overflow (n - 3)
    Room-later n h (inl e) = inl e
    Room-later n h (inr e) = inr (omega arith)

    Room-same : (m n : ℕ) → m ≡ n → Room overflow n → Room overflow m
    Room-same m n e (inl o) = inl o
    Room-same m n e (inr h) = inr (ground arith)

    whole : (xs : List RecordedAlert) → length (drop 3 xs) ≡ 0 → length (take 3 xs) ≡ length xs
    whole xs e =
        omega (arith, e, length-append (take 3 xs) (drop 3 xs), ap length (take-append-drop 3 xs))

    Room-rest :
        (xs : List RecordedAlert)
        → Room overflow (length xs)
        → Room overflow (length (drop 3 xs)) ⊎ (length (drop 3 xs) ≡ 0)
    Room-rest xs room = elim (Bool-cases (leb 3 (length xs))) [
      | inl e ↦ inl (Room-same _ _ (length-drop 3 xs) (Room-later (length xs) (ground arith) room))
      | inr e ↦ inr (ground (arith, length-drop 3 xs))
    ]

    all_within :
        (fuel : ℕ) (xs : List RecordedAlert)
        → length xs ≤ fuel
        → (Room overflow (length xs) ⊎ (length xs ≡ 0))
        → within_fields 10 (attached (chunks fuel 3 xs)) ≡ true
    all_within zero xs h room = refl
    all_within (suc fuel) [] h room = refl
    all_within (suc fuel) (x ∷ xs) h (inr e) = absurd (omega arith)
    all_within (suc fuel) (x ∷ xs) h (inl room) =
        let rest = drop 3 (x ∷ xs) in
        let left : length rest ≤ fuel = omega (arith, length-drop 3 (x ∷ xs)) in
        next_within (take 3 (x ∷ xs)) (chunks fuel 3 rest) (length-take-le 3 (x ∷ xs))
          (λ e. Room-same _ _ (whole (x ∷ xs) (no_chunks fuel rest left e)) room)
          (all_within fuel rest left (Room-rest (x ∷ xs) room))

    count_le :
        (k fuel : ℕ) (xs : List RecordedAlert) → length xs ≤ 3 * k → length (chunks fuel 3 xs) ≤ k
    count_le k zero xs h = omega arith
    count_le k (suc fuel) [] h = omega arith
    count_le zero (suc fuel) (x ∷ xs) h = absurd (omega arith)
    count_le (suc k) (suc fuel) (x ∷ xs) h =
        let rest = drop 3 (x ∷ xs) in
        omega (arith, count_le k fuel rest (omega (arith, length-drop 3 (x ∷ xs))))

    length-attached : (cs : List (List RecordedAlert)) → length (attached cs) ≡ length cs
    length-attached [] = refl
    length-attached (c ∷ []) = refl
    length-attached (c ∷ (c' ∷ cs)) = ap suc (length-attached (c' ∷ cs))

    attached_ok :
        (xs : List RecordedAlert)
        → length xs ≤ 300
        → Room overflow (length xs) ⊎ (length xs ≡ 0)
        → let all = attached (chunks (length xs) 3 xs) in
          (length all ≤ 100) × (within_fields 10 all ≡ true)
    attached_ok xs h room = (
      omega (
        arith,
        length-attached (chunks (length xs) 3 xs),
        count_le 100 (length xs) xs (omega arith),
      ),
      all_within (length xs) xs (omega arith) room,
    )

  abbrev Fits : List RecordedAlert × List RecordedAlert → String → Type 0
  Fits (shown, overflow) run_id =
      let all = alert_attachments p trim_space overflow run_id (chunks (length shown) 3 shown) in
      (length all ≤ 100) × (within_fields 10 all ≡ true)

  shown_ok : (alerts : List RecordedAlert) (run_id : String) → Fits (split_alerts alerts) run_id
  unfolding split_alerts
  shown_ok alerts run_id =
      if_both (λ x. Fits x run_id) (ltb 300 (length alerts))
        (λ e.
          let shown = take max_with_overflow alerts in
          let n : length shown ≡ 299 = length-take_le 299 alerts (ground arith) in
          attached_ok (drop max_with_overflow alerts) run_id shown (omega arith)
            (inl (inr (ground arith))))
        (λ e. attached_ok [] run_id alerts (ground arith) (inl (inl refl)))

-- A message for any number of alerts has at most 100 attachments, each with at most ten fields.
pub format_alerts-within_limits :
    (p : Printer) (trim_space : String → String) (alerts : List RecordedAlert) (run_id : String)
    → let m = format_alerts p trim_space alerts run_id in
      (length m.attachments ≤ 100) × (within_fields 10 m.attachments ≡ true)
unfolding format_alerts
format_alerts-within_limits p trim_space alerts run_id = shown_ok p trim_space alerts run_id
