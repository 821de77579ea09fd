-- ===== src/Mailparse.antt =====
-- internal/mailparse/mailparse.go: the attachments of a mail. net/mail, mime, mime/multipart and
-- encoding/base64 are not modelled: a message is the tree of what their readers give for it. Sizes
-- are int64, and bytes in memory do not exceed it.
pub mod Limits
pub mod Nesting
use tlsrpt_digest.Base.{
  ℕ, suc, ◌+◌, ltb, Bool, true, false, ◌&&◌, Option, none, some, List, [], ◌∷◌, ◌++◌, length,
  String, str_eq, starts_with, if◌then◌else◌,
}
use tlsrpt_digest.Base.Int.{ℤ, pos, ltb_ℤ}

pub record Attachment : Type 0 where
  pub filename : String
  pub content_type : String
  pub content : List ℕ

-- the parameters of a header, whose keys mime.ParseMediaType makes lower case and distinct
abbrev pub Params : Type 0
Params = List (String × String)

-- the Content-Type: no such header or an empty one, one that mime.ParseMediaType refuses, or its
-- media type and parameters
pub data ContentType : Type 0 where
  absent malformed : ContentType
  media : String → Params → ContentType

-- `disposition` and its parameters are what mime.ParseMediaType gives of the Content-Disposition,
-- its error left out; `transfer_encoding` is the header without the white space around it, in lower
-- case
pub record PartHeader : Type 0 where
  pub content_type : ContentType
  pub disposition : String
  pub disposition_params : Params
  pub transfer_encoding : String

-- what the calls of Read of a reader give: bytes, up to the end or an error
pub data Reading : Type 0 where
  eof read_error : Reading
  chunk : List ℕ → Reading → Reading

mutual
  -- a message or a part of one: its header, its body as it is and through a base64 decoder, and the
  -- parts that a multipart reader gives of it
  pub data Part : Type 0 where
    part : PartHeader → Reading → Reading → Parts → Part

  -- the parts up to the end, or up to an error of NextRawPart
  pub data Parts : Type 0 where
    end broken : Parts
    then_part : Part → Parts → Parts

pub data MailError : Type 0 where
  parse_content_type parse_multipart mime_too_deep : MailError
  size_limit_exceeded : ℕ → MailError

-- the attachments, with the size that has been decoded so far
pub data Extraction : Type 0 where
  extracted : List Attachment → ℕ → Extraction
  refused : MailError → Extraction

abbrev pub max_multipart_depth : ℕ
max_multipart_depth = 10

abbrev pub lookup : String → Params → Option String
lookup key [] = none
lookup key ((k, v) ∷ ps) = if str_eq k key then some v else lookup key ps

abbrev is_present : Option String → Bool
is_present none = false
is_present (some v) = true

unfoldable pub is_attachment : String → Params → Bool
is_attachment disposition params =
    if str_eq disposition "attachment"
    then true
    else if str_eq disposition "inline"
    then false
    else is_present (lookup "name" params)

abbrev raw_filename : Option String → Option String → String
raw_filename (some filename) name = filename
raw_filename none (some name) = name
raw_filename none none = ""

abbrev or_raw : String → Option String → String
or_raw raw none = raw
or_raw raw (some decoded) = decoded

-- `decode_header` is DecodeHeader of mime.WordDecoder
unfoldable pub resolve_filename : (String → Option String) → Params → Params → String
resolve_filename decode_header disposition_params params =
    let raw = raw_filename (lookup "filename" disposition_params) (lookup "name" params) in
    if str_eq raw "" then "" else or_raw raw (decode_header raw)

-- errSkip and a decoding error are both a part to skip; the size that was decoded stays counted
pub data Decoding : Type 0 where
  content : List ℕ → ℕ → Decoding
  skipped : ℕ → Decoding
  too_large : ℕ → Decoding

-- the loop of decodeContent
abbrev pub decode_chunks : ℤ → Reading → ℕ → List ℕ → Decoding
decode_chunks max_bytes eof accumulated out = content out accumulated
decode_chunks max_bytes read_error accumulated out = skipped accumulated
decode_chunks max_bytes (chunk bytes rest) accumulated out =
    elim (ltb_ℤ (pos 0) max_bytes && ltb_ℤ max_bytes (pos (accumulated + length bytes))) [
      | true ↦ too_large (accumulated + length bytes)
      | false ↦ decode_chunks max_bytes rest (accumulated + length bytes) (out ++ bytes)
    ]

unfoldable pub decode_content : ℤ → String → Reading → Reading → ℕ → Decoding
decode_content max_bytes encoding raw base64 accumulated =
    if str_eq encoding "base64"
    then decode_chunks max_bytes base64 accumulated []
    else if str_eq encoding ""
    then decode_chunks max_bytes raw accumulated []
    else skipped accumulated

abbrev pub attached : String → String → Decoding → Extraction
attached filename media_type (content bytes accumulated) =
    extracted (record { filename = filename; content_type = media_type; content = bytes } ∷ [])
      accumulated
attached filename media_type (skipped accumulated) = extracted [] accumulated
attached filename media_type (too_large actual) = refused (size_limit_exceeded actual)

-- a part that is not a multipart one: the second halves of ExtractAttachments and processPart
unfoldable pub extract_leaf :
    (String → Option String) → ℤ → PartHeader → String → Params → Reading → Reading → ℕ → Extraction
unfolding is_attachment resolve_filename decode_content
extract_leaf decode_header max_bytes h media_type params raw base64 accumulated =
    if is_attachment h.disposition params
    then attached (resolve_filename decode_header h.disposition_params params) media_type
        (decode_content max_bytes h.transfer_encoding raw base64 accumulated)
    else extracted [] accumulated

abbrev pub prepend : List Attachment → Extraction → Extraction
prepend xs (refused e) = refused e
prepend xs (extracted ys accumulated) = extracted (xs ++ ys) accumulated

-- the start of extractParts
abbrev pub limit_depth : ℕ → Extraction → Extraction
limit_depth depth rest = elim (ltb max_multipart_depth depth) [
  | true ↦ refused mime_too_deep
  | false ↦ rest
]

unfoldable mutual
  -- the loop of extractParts
  pub extract_loop : (String → Option String) → ℤ → ℕ → Parts → ℕ → Extraction
  extract_loop dh max_bytes depth end accumulated = extracted [] accumulated
  extract_loop dh max_bytes depth broken accumulated = refused parse_multipart
  extract_loop dh max_bytes depth (then_part p ps) accumulated =
      elim (process_part dh max_bytes depth p accumulated) [
        | refused e ↦ refused e
        | extracted xs acc ↦ prepend xs (extract_loop dh max_bytes depth ps acc)
      ]

  pub process_part : (String → Option String) → ℤ → ℕ → Part → ℕ → Extraction
  process_part dh max_bytes depth (part h raw base64 ps) accumulated = elim h.content_type [
    | absent ↦ extracted [] accumulated
    | malformed ↦ extracted [] accumulated
    | media media_type params ↦ (elim (starts_with media_type "multipart/") [
      | true ↦ limit_depth (suc depth) (extract_loop dh max_bytes (suc depth) ps accumulated)
      | false ↦ extract_leaf dh max_bytes h media_type params raw base64 accumulated
    ])
  ]

unfoldable pub extract_parts : (String → Option String) → ℤ → ℕ → Parts → ℕ → Extraction
unfolding extract_loop
extract_parts dh max_bytes depth ps accumulated =
    limit_depth depth (extract_loop dh max_bytes depth ps accumulated)

pub data Attachments : Type 0 where
  attachments : List Attachment → Attachments
  mail_error : MailError → Attachments

abbrev pub without_size : Extraction → Attachments
without_size (extracted xs accumulated) = attachments xs
without_size (refused e) = mail_error e

abbrev pub extract_message : (String → Option String) → ℤ → Part → Extraction
extract_message dh max_bytes (part h raw base64 ps) = elim h.content_type [
  | absent ↦ extracted [] 0
  | malformed ↦ refused parse_content_type
  | media media_type params ↦ (elim (starts_with media_type "multipart/") [
    | true ↦ extract_parts dh max_bytes 0 ps 0
    | false ↦ extract_leaf dh max_bytes h media_type params raw base64 0
  ])
]

unfoldable pub extract_attachments : (String → Option String) → ℤ → Part → Attachments
unfolding extract_leaf extract_parts
extract_attachments dh max_bytes message = without_size (extract_message dh max_bytes message)
