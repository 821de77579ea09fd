-- ===== src/Mailparse/Nesting.antt =====
-- internal/mailparse/mailparse.go: the limit on how deep the parts of a mail are nested.
use tlsrpt_digest.Base.{
  ◌≡◌, refl, ℕ, suc, ◌+◌, ◌≤◌, ltb, ltb→le, Bool, true, false, Option, List, [], String,
  starts_with, arith, if◌then◌else◌,
}
use tlsrpt_digest.Base.Int.{ℤ}
use tlsrpt_digest.Mailparse.{
  Attachment, PartHeader, ContentType, absent, malformed, media, Reading, Part, part, Parts, end,
  broken, then_part, Extraction, extracted, refused, mime_too_deep, parse_content_type,
  extract_leaf, prepend, max_multipart_depth, extract_loop, process_part, extract_parts,
  extract_message, attachments, without_size, extract_attachments,
}

abbrev pub is_multipart : ContentType → Bool
is_multipart absent = false
is_multipart malformed = false
is_multipart (media m ps) = starts_with m "multipart/"

abbrev larger : ℕ → ℕ → ℕ
larger a b = if ltb a b then b else a

-- how many multiparts lie one in another, at most, in a message and in a list of parts
unfoldable mutual
  pub nesting : Part → ℕ
  nesting (part h raw base64 ps) = elim (is_multipart h.content_type) [
    | true ↦ suc (nesting_parts ps)
    | false ↦ 0
  ]

  pub nesting_parts : Parts → ℕ
  nesting_parts end = 0
  nesting_parts broken = 0
  nesting_parts (then_part p ps) = larger (nesting p) (nesting_parts ps)

-- where the attachments are extracted, the nesting is in the limit
abbrev Shallow : ℕ → ℕ → Extraction → Type 0
Shallow depth n (extracted xs acc) = depth + n ≤ max_multipart_depth
Shallow depth n (refused e) = Unit

module _ (dh : String → Option String) (max_bytes : ℤ) where
  prepend-Shallow :
      (depth m n : ℕ) (xs : List Attachment) (r : Extraction)
      → depth + m ≤ max_multipart_depth
      → Shallow depth n r
      → Shallow depth (larger m n) (prepend xs r)
  prepend-Shallow depth m n xs (extracted ys acc) h k = ground arith
  prepend-Shallow depth m n xs (refused e) h k = tt

  then-Shallow :
      (depth m n : ℕ) (r : Extraction) (rest : ℕ → Extraction)
      → Shallow depth m r
      → ((acc : ℕ) → Shallow depth n (rest acc))
      → Shallow depth
          (larger m n)
          (elim r [ refused e ↦ refused e | extracted xs acc ↦ prepend xs (rest acc) ])
  then-Shallow depth m n (extracted xs acc) rest h k =
      prepend-Shallow depth m n xs (rest acc) h (k acc)
  then-Shallow depth m n (refused e) rest h k = tt

  deeper : (depth n : ℕ) (r : Extraction) → Shallow (suc depth) n r → Shallow depth (suc n) r
  deeper depth n (extracted xs acc) h = omega arith
  deeper depth n (refused e) h = tt

  opened :
      (b : Bool) (depth n : ℕ) (r : Extraction)
      → ltb max_multipart_depth depth ≡ b
      → (depth ≤ max_multipart_depth → Shallow depth n r)
      → Shallow depth n (elim b [ true ↦ refused mime_too_deep | false ↦ r ])
  opened true depth n r e h = tt
  opened false depth n r e h = h (ltb→le _ _ e)

  flat : (depth : ℕ) (r : Extraction) → depth ≤ max_multipart_depth → Shallow depth 0 r
  flat depth (extracted xs acc) h = omega arith
  flat depth (refused e) h = tt

  by_media :
      (b : Bool) (depth n : ℕ) (nested leaf : Extraction)
      → depth ≤ max_multipart_depth
      → Shallow depth (suc n) nested
      → Shallow depth
          (elim b [ true ↦ suc n | false ↦ 0 ])
          (elim b [ true ↦ nested | false ↦ leaf ])
  by_media true depth n nested leaf h k = k
  by_media false depth n nested leaf h k = flat depth leaf h

  by_type :
      (t : ContentType) (h : PartHeader) (raw base64 : Reading) (depth n acc : ℕ)
      (bad nested : Extraction)
      → depth ≤ max_multipart_depth
      → Shallow depth (suc n) nested
      → Shallow depth
          (elim (is_multipart t) [ true ↦ suc n | false ↦ 0 ])
          (elim t [
            | absent ↦ extracted [] acc
            | malformed ↦ bad
            | media media_type params ↦ (elim (starts_with media_type "multipart/") [
              | true ↦ nested
              | false ↦ extract_leaf dh max_bytes h media_type params raw base64 acc
            ])
          ])
  by_type absent h raw base64 depth n acc bad nested le k = flat depth (extracted [] acc) le
  by_type malformed h raw base64 depth n acc bad nested le k = flat depth bad le
  by_type (media m ps) h raw base64 depth n acc bad nested le k =
      by_media (starts_with m "multipart/") depth n nested _ le k

  mutual
    unfolding extract_loop nesting

    extract_loop-Shallow :
        (depth : ℕ) (ps : Parts) (acc : ℕ)
        → depth ≤ max_multipart_depth
        → Shallow depth (nesting_parts ps) (extract_loop dh max_bytes depth ps acc)
    extract_loop-Shallow depth end acc le = omega arith
    extract_loop-Shallow depth broken acc le = tt
    extract_loop-Shallow depth (then_part p ps) acc le =
        then-Shallow depth (nesting p) (nesting_parts ps) _ (extract_loop dh max_bytes depth ps)
          (process_part-Shallow depth p acc le) (λ next. extract_loop-Shallow depth ps next le)

    process_part-Shallow :
        (depth : ℕ) (p : Part) (acc : ℕ)
        → depth ≤ max_multipart_depth
        → Shallow depth (nesting p) (process_part dh max_bytes depth p acc)
    process_part-Shallow depth (part h raw base64 ps) acc le =
        by_type h.content_type h raw base64 depth (nesting_parts ps) acc (extracted [] acc) _ le (
          deeper depth (nesting_parts ps) _ (
            opened _ (suc depth) (nesting_parts ps) _ refl
              (λ l. extract_loop-Shallow (suc depth) ps acc l)))

  abbrev Extracts : ℕ → Extraction → Type 0
  Extracts n (extracted xs acc) = n ≤ suc max_multipart_depth
  Extracts n (refused e) = Unit

  top :
      (b : Bool) (n : ℕ) (r leaf : Extraction)
      → Shallow 0 n r
      → Extracts (elim b [ true ↦ suc n | false ↦ 0 ]) (elim b [ true ↦ r | false ↦ leaf ])
  top true n (extracted xs acc) leaf h = omega arith
  top true n (refused e) leaf h = tt
  top false n r (extracted xs acc) h = omega arith
  top false n r (refused e) h = tt

  top_type :
      (t : ContentType) (h : PartHeader) (raw base64 : Reading) (n : ℕ) (r : Extraction)
      → Shallow 0 n r
      → Extracts
          (elim (is_multipart t) [ true ↦ suc n | false ↦ 0 ])
          (elim t [
            | absent ↦ extracted [] 0
            | malformed ↦ refused parse_content_type
            | media media_type params ↦ (elim (starts_with media_type "multipart/") [
              | true ↦ r
              | false ↦ extract_leaf dh max_bytes h media_type params raw base64 0
            ])
          ])
  top_type absent h raw base64 n r k = omega arith
  top_type malformed h raw base64 n r k = tt
  top_type (media m ps) h raw base64 n r k = top (starts_with m "multipart/") n r _ k

  message-Extracts : (m : Part) → Extracts (nesting m) (extract_message dh max_bytes m)
  unfolding extract_parts nesting
  message-Extracts (part h raw base64 ps) =
      top_type h.content_type h raw base64 (nesting_parts ps) _
        (opened _ 0 (nesting_parts ps) _ refl (λ l. extract_loop-Shallow 0 ps 0 l))

  nested_at_most :
      (n : ℕ) (r : Extraction) (xs : List Attachment)
      → Extracts n r
      → without_size r ≡ attachments xs
      → n ≤ suc max_multipart_depth
  nested_at_most n (extracted ys acc) xs h e = h
  nested_at_most n (refused x) xs h e = absurd (ground arith)

-- A mail whose multiparts lie more than eleven deep one in another gives no attachments: where the
-- extraction has a result, the nesting is at most eleven.
pub extract_attachments-refuses_deep :
    (dh : String → Option String) (max_bytes : ℤ) (m : Part) (xs : List Attachment)
    → extract_attachments dh max_bytes m ≡ attachments xs
    → nesting m ≤ suc max_multipart_depth
unfolding extract_attachments
extract_attachments-refuses_deep dh max_bytes m xs e =
    nested_at_most dh max_bytes (nesting m) (extract_message dh max_bytes m) xs
      (message-Extracts dh max_bytes m) e
