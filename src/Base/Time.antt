-- ===== src/Base/Time.antt =====
-- Instants, and the month that internal/store/emails.go files a mail under.
-- An instant is the number of nanoseconds after an origin that lies 2^63 days before Go's zero
-- `time.Time` (midnight UTC, 1 January of year 1), so the cutoff of any int number of days before
-- an instant from year 1 on is an instant too. A UTC day starts at a multiple of `day`.
use Prim.Native.Nat.{ℕ, ◌+◌, ◌%◌, ◌-◌, ◌*◌, ◌/◌, ◌^◌}
use mathlib.Core.Bool.{Bool}
use tlsrpt_digest.Base.Tests.{ltb, ◌==◌, if◌then◌else◌}

abbrev pub Time : Type 0
Time = ℕ

abbrev pub second : ℕ
second = 1000000000

abbrev pub day : ℕ
day = 86400 * second

abbrev pub zero_time : Time
zero_time = 2 ^ 63 * day

abbrev pub is_zero : Time → Bool
is_zero t = t == zero_time

abbrev pub before : Time → Time → Bool
before t u = ltb t u

-- `t.UTC().Format("200601")` as a number, for an instant from year 1 on: the Gregorian calendar with
-- years that begin in March, in cycles of 400 years, which are 146097 days
unfoldable pub year_month : Time → ℕ
year_month t =
    let days = (t - zero_time) / day + 306 in
    let in_cycle = days % 146097 in
    let year = (in_cycle - in_cycle / 1460 + in_cycle / 36524 - in_cycle / 146096) / 365 in
    let in_year = in_cycle - (365 * year + year / 4 - year / 100) in
    let month = (5 * in_year + 2) / 153 in
    let full = days / 146097 * 400 + year in
    if ltb month 10 then full * 100 + month + 3 else (full + 1) * 100 + (month - 9)
