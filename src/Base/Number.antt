-- ===== src/Base/Number.antt =====
-- Numbers written in decimal digits, as strconv reads them.
use Prim.Native.Nat.{ℕ, zero, suc, ◌+◌, ◌-◌, ◌*◌, ◌^◌}
use mathlib.Core.Bool.{Bool, true, false, ◌&&◌}
use mathlib.Core.List.{List, [], ◌∷◌}
use mathlib.Core.Option.{Option, none, some}
use tlsrpt_digest.Base.Tests.{leb, ltb, ◌==◌, if◌then◌else◌}
use tlsrpt_digest.Base.Int.{ℤ, pos, negsuc}

-- strconv.Atoi on the bytes of a text: an optional sign and decimal digits, within an int64
abbrev is_digit : ℕ → Bool
is_digit c = leb b'0' c && leb c b'9'

abbrev digits : List ℕ → ℕ → Option ℕ
digits [] n = some n
digits (c ∷ cs) n = elim (is_digit c) [ true ↦ digits cs (n * 10 + (c - b'0')) | false ↦ none ]

abbrev pub some_digits : List ℕ → Option ℕ
some_digits [] = none
some_digits (c ∷ cs) = digits (c ∷ cs) 0

abbrev pub signed : Bool → Option ℕ → Option ℤ
signed negative none = none
signed false (some n) = if ltb n (2 ^ 63) then some (pos n) else none
signed true (some zero) = some (pos 0)
signed true (some (suc n)) = if ltb n (2 ^ 63) then some (negsuc n) else none

unfoldable pub atoi : List ℕ → Option ℤ
atoi [] = none
atoi (c ∷ cs) =
    if c == b'-'
    then signed true (some_digits cs)
    else if c == b'+'
    then signed false (some_digits cs)
    else signed false (some_digits (c ∷ cs))
