-- ===== src/Mailparse/Limits.antt =====
-- internal/mailparse/mailparse.go: the limits on the size and on the nesting of a mail.
use tlsrpt_digest.Base.{
  ◌≡◌, refl, ap, subst, ℕ, suc, ◌+◌, ◌≤◌, ◌<◌, ltb, Bool, true, false, ◌&&◌, Option, List, [], ◌∷◌,
  ◌++◌, length, length-append, String, starts_with, arith, Bool-cases, inl, inr, str_eq, if_both,
}
use tlsrpt_digest.Base.Int.{pos, ltb_ℤ}
use tlsrpt_digest.Mailparse.{
  Attachment, Params, PartHeader, ContentType, absent, malformed, media, Reading, eof, read_error,
  chunk, Part, part, Parts, end, broken, then_part, Extraction, extracted, refused, MailError,
  mime_too_deep, parse_content_type, Decoding, content, skipped, too_large, decode_chunks,
  decode_content, attached, extract_leaf, is_attachment, prepend, limit_depth, max_multipart_depth,
  extract_loop, process_part, extract_parts, extract_message, attachments, without_size,
  extract_attachments,
}

-- the size of the attachments
abbrev pub total : List Attachment → ℕ
total [] = 0
total (a ∷ xs) = length a.content + total xs

total-append : (xs ys : List Attachment) → total (xs ++ ys) ≡ total xs + total ys
total-append [] ys = omega arith
total-append (x ∷ xs) ys = omega (arith, total-append xs ys)

-- from a size to a later one that the limit allows, with an attached size in between
record Grows (limit start attached_size stop : ℕ) : Type 0 where
  counted : start + attached_size ≤ stop
  bounded : start ≤ limit → stop ≤ limit

abbrev DecodesWithin : ℕ → ℕ → ℕ → Decoding → Type 0
DecodesWithin limit start before (content bytes stop) =
    (start + length bytes ≡ before + stop) × Grows limit start 0 stop
DecodesWithin limit start before (skipped stop) = Grows limit start 0 stop
DecodesWithin limit start before (too_large n) = Unit

abbrev ExtractsWithin : ℕ → ℕ → Extraction → Type 0
ExtractsWithin limit start (extracted xs stop) = Grows limit start (total xs) stop
ExtractsWithin limit start (refused e) = Unit

stays : (limit start : ℕ) → Grows limit start 0 start
stays limit start = record { counted = omega arith; bounded = λ h. h }

module _ (limit : ℕ) (positive : 0 < limit) where
  longer :
      (start next before len : ℕ) (bytes : List ℕ) (d : Decoding)
      → start + len ≡ next
      → next ≤ limit
      → DecodesWithin limit next (before + len) d
      → DecodesWithin limit start before d
  longer start next before len bytes (content out stop) e le h = (
    omega (arith, e, h.0),
    record { counted = omega (arith, e, h.1.counted); bounded = λ l. h.1.bounded le },
  )
  longer start next before len bytes (skipped stop) e le h = record {
    counted = omega (arith, e, h.counted);
    bounded = λ l. h.bounded le;
  }
  longer start next before len bytes (too_large n) e le h = tt

  -- the test of the limit after a chunk
  within :
      (next : ℕ)
      → (ltb_ℤ (pos 0) (pos limit) && ltb_ℤ (pos limit) (pos next)) ≡ false
      → next ≤ limit
  within next h = ground arith

  after_chunk :
      (start before len next : ℕ) (b : Bool) (d : Decoding)
      → (ltb_ℤ (pos 0) (pos limit) && ltb_ℤ (pos limit) (pos next)) ≡ b
      → start + len ≡ next
      → DecodesWithin limit next (before + len) d
      → DecodesWithin limit start before (elim b [ true ↦ too_large next | false ↦ d ])
  after_chunk start before len next true d t e h = tt
  after_chunk start before len next false d t e h =
      longer start next before len [] d e (within next t) h

  decode_chunks-Within :
      (r : Reading) (start : ℕ) (out : List ℕ)
      → DecodesWithin limit start (length out) (decode_chunks (pos limit) r start out)
  decode_chunks-Within eof start out = (omega arith, stays limit start)
  decode_chunks-Within read_error start out = stays limit start
  decode_chunks-Within (chunk bytes rest) start out =
      after_chunk start (length out) (length bytes) (start + length bytes) _ _ refl refl (
        subst
          (λ n.
            DecodesWithin limit (start + length bytes) n
              (decode_chunks (pos limit) rest (start + length bytes) (out ++ bytes)))
          (length-append out bytes)
          (decode_chunks-Within rest (start + length bytes) (out ++ bytes)))

  decode_content-Within :
      (encoding : String) (raw base64 : Reading) (start : ℕ)
      → DecodesWithin limit start 0 (decode_content (pos limit) encoding raw base64 start)
  unfolding decode_content
  decode_content-Within encoding raw base64 start =
      if_both (DecodesWithin limit start 0) (str_eq encoding "base64")
        (λ _. decode_chunks-Within base64 start [])
        (λ _.
          if_both (DecodesWithin limit start 0) (str_eq encoding "")
            (λ _. decode_chunks-Within raw start []) (λ _. stays limit start))

  attached-Within :
      (filename media_type : String) (start : ℕ) (d : Decoding)
      → DecodesWithin limit start 0 d
      → ExtractsWithin limit start (attached filename media_type d)
  attached-Within filename media_type start (content bytes stop) h = record {
    counted = omega (arith, h.0, h.1.counted);
    bounded = h.1.bounded;
  }
  attached-Within filename media_type start (skipped stop) h = h
  attached-Within filename media_type start (too_large n) h = tt

  module _ (dh : String → Option String) where
    extract_leaf-Within :
        (h : PartHeader) (m : String) (ps : Params) (raw base64 : Reading) (start : ℕ)
        → ExtractsWithin limit start (extract_leaf dh (pos limit) h m ps raw base64 start)
    unfolding extract_leaf
    extract_leaf-Within h m ps raw base64 start =
        if_both (ExtractsWithin limit start) (is_attachment h.disposition ps)
          (λ _.
            attached-Within _ m start _
              (decode_content-Within h.transfer_encoding raw base64 start))
          (λ _. stays limit start)

    prepend-Within :
        (start next : ℕ) (xs : List Attachment) (r : Extraction)
        → Grows limit start (total xs) next
        → ExtractsWithin limit next r
        → ExtractsWithin limit start (prepend xs r)
    prepend-Within start next xs (extracted ys stop) g h = record {
      counted = omega (arith, g.counted, h.counted, total-append xs ys);
      bounded = λ l. h.bounded (g.bounded l);
    }
    prepend-Within start next xs (refused e) g h = tt

    then-Within :
        (start : ℕ) (r : Extraction) (rest : ℕ → Extraction)
        → ExtractsWithin limit start r
        → ((next : ℕ) → ExtractsWithin limit next (rest next))
        → ExtractsWithin limit start
            (elim r [ refused e ↦ refused e | extracted xs acc ↦ prepend xs (rest acc) ])
    then-Within start (extracted xs next) rest g h =
        prepend-Within start next xs (rest next) g (h next)
    then-Within start (refused e) rest g h = tt

    gated :
        (b : Bool) (start : ℕ) (e : MailError) (r : Extraction)
        → ExtractsWithin limit start r
        → ExtractsWithin limit start (elim b [ true ↦ refused e | false ↦ r ])
    gated true start e r h = tt
    gated false start e r h = h

    limit_depth-Within :
        (depth start : ℕ) (r : Extraction)
        → ExtractsWithin limit start r
        → ExtractsWithin limit start (limit_depth depth r)
    limit_depth-Within depth start r h =
        gated (ltb max_multipart_depth depth) start mime_too_deep r h

    by_type :
        (t : ContentType) (h : PartHeader) (raw base64 : Reading) (start : ℕ)
        (bad nested : Extraction)
        → ExtractsWithin limit start bad
        → ExtractsWithin limit start nested
        → ExtractsWithin limit start (elim t [
          | absent ↦ extracted [] start
          | malformed ↦ bad
          | media media_type params ↦ (elim (starts_with media_type "multipart/") [
            | true ↦ nested
            | false ↦ extract_leaf dh (pos limit) h media_type params raw base64 start
          ])
        ])
    by_type absent h raw base64 start bad nested o n = stays limit start
    by_type malformed h raw base64 start bad nested o n = o
    by_type (media m ps) h raw base64 start bad nested o n =
        elim (Bool-cases (starts_with m "multipart/")) [
          | inl e ↦ rw e n
          | inr e ↦ rw e (extract_leaf-Within h m ps raw base64 start)
        ]

    mutual
      unfolding extract_loop

      extract_loop-Within :
          (depth : ℕ) (ps : Parts) (start : ℕ)
          → ExtractsWithin limit start (extract_loop dh (pos limit) depth ps start)
      extract_loop-Within depth end start = stays limit start
      extract_loop-Within depth broken start = tt
      extract_loop-Within depth (then_part p ps) start =
          then-Within start _ (extract_loop dh (pos limit) depth ps)
            (process_part-Within depth p start) (λ next. extract_loop-Within depth ps next)

      process_part-Within :
          (depth : ℕ) (p : Part) (start : ℕ)
          → ExtractsWithin limit start (process_part dh (pos limit) depth p start)
      process_part-Within depth (part h raw base64 ps) start =
          by_type h.content_type h raw base64 start (extracted [] start) _ (stays limit start)
            (limit_depth-Within (suc depth) start _ (extract_loop-Within (suc depth) ps start))

    message-Within : (m : Part) → ExtractsWithin limit 0 (extract_message dh (pos limit) m)
    unfolding extract_parts
    message-Within (part h raw base64 ps) =
        by_type h.content_type h raw base64 0 (refused parse_content_type) _ tt
          (limit_depth-Within 0 0 _ (extract_loop-Within 0 ps 0))

    same_attachments : (xs ys : List Attachment) → attachments ys ≡ attachments xs → ys ≡ xs
    same_attachments xs ys e = ground arith

    attachments_of :
        (r : Extraction) (xs : List Attachment)
        → ExtractsWithin limit 0 r
        → without_size r ≡ attachments xs
        → total xs ≤ limit
    attachments_of (extracted ys stop) xs g e =
        omega (arith, g.counted, g.bounded (omega arith), ap total (same_attachments xs ys e))
    attachments_of (refused x) xs g e = absurd (ground arith)

-- The attachments that are extracted from a mail, however it is nested and encoded, have together at
-- most `limit` bytes, where the limit is above 0.
pub extract_attachments-within_limit :
    (dh : String → Option String) (limit : ℕ) (m : Part) (xs : List Attachment)
    → 0 < limit
    → extract_attachments dh (pos limit) m ≡ attachments xs
    → total xs ≤ limit
unfolding extract_attachments
extract_attachments-within_limit dh limit m xs positive e =
    attachments_of limit positive dh (extract_message dh (pos limit) m) xs
      (message-Within limit positive dh m) e
