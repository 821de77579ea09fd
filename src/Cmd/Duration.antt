-- ===== src/Cmd/Duration.antt =====
-- cmd/tlsrpt-digest/duration.go: the periods of the command line, and the day they reach back to.
-- An int is an int64; a text is the list of its bytes.
pub mod Parse
use tlsrpt_digest.Base.{
  ℕ, suc, ◌+◌, ◌-◌, ◌*◌, ◌/◌, ◌^◌, ◌==◌, ltb, List, [], ◌∷◌, Option, none, some, if◌then◌else◌,
}
use tlsrpt_digest.Base.Int.{ℤ, pos, negsuc}
use tlsrpt_digest.Base.Time.{Time, day}
use tlsrpt_digest.Base.Number.{atoi}

pub data DurationError : Type 0 where
  empty unsupported_unit not_a_number non_positive overflow : DurationError

pub data Parsed : Type 0 where
  days : ℕ → Parsed
  refused : DurationError → Parsed

-- the bytes before the last one, and the last one
abbrev pub split_last : ℕ → List ℕ → List ℕ × ℕ
split_last c [] = ([], c)
split_last c (x ∷ xs) = let (front, last) = split_last x xs in (c ∷ front, last)

abbrev in_days : ℕ → ℕ → Parsed
in_days unit value =
    if unit == b'w'
    then if ltb ((2 ^ 63 - 1) / 7) value then refused overflow else days (value * 7)
    else days value

abbrev pub parse_value : ℕ → Option ℤ → Parsed
parse_value unit none = refused not_a_number
parse_value unit (some (negsuc n)) = refused non_positive
parse_value unit (some (pos n)) = if n == 0 then refused non_positive else in_days unit n

abbrev pub parse_parts : List ℕ × ℕ → Parsed
parse_parts (front, unit) =
    if unit == b'd'
    then parse_value unit (atoi front)
    else if unit == b'w'
    then parse_value unit (atoi front)
    else refused unsupported_unit

unfoldable pub parse_duration : List ℕ → Parsed
parse_duration [] = refused empty
parse_duration (c ∷ cs) = parse_parts (split_last c cs)

-- `UTCDayStart`
unfoldable pub utc_day_start : Time → Time
utc_day_start now = now / day * day

-- `Duration.Cutoff`
unfoldable pub cutoff : ℤ → Time → Time
unfolding utc_day_start
cutoff (pos n) now = utc_day_start now - n * day
cutoff (negsuc n) now = utc_day_start now + suc n * day
