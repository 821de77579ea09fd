-- ===== src/Cmd/Duration/Parse.antt =====
-- What ParseDuration of cmd/tlsrpt-digest/duration.go accepts.
use tlsrpt_digest.Base.{
  ◌≡◌, refl, ℕ, zero, suc, ◌^◌, ◌≤◌, ◌<◌, Bool, true, false, Option, none, some, List, [], ◌∷◌,
  arith,
}
use tlsrpt_digest.Base.Int.{ℤ, pos, negsuc}
use tlsrpt_digest.Base.Number.{atoi, signed, some_digits}
use tlsrpt_digest.Cmd.Duration.{days, parse_value, parse_parts, split_last, parse_duration}

signed_lt : (negative : Bool) (o : Option ℕ) (n : ℕ) → signed negative o ≡ some (pos n) → n < 2 ^ 63
signed_lt true none n h = absurd (ground arith)
signed_lt false none n h = absurd (ground arith)
signed_lt true (some zero) n h = ground arith
signed_lt true (some (suc m)) n h = ground arith
signed_lt false (some m) n h = ground arith

atoi_lt : (cs : List ℕ) (n : ℕ) → atoi cs ≡ some (pos n) → n < 2 ^ 63
unfolding atoi
atoi_lt [] n h = absurd (ground arith)
atoi_lt (c ∷ cs) n h = ground (
  arith,
  signed_lt true (some_digits cs) n,
  signed_lt false (some_digits cs) n,
  signed_lt false (some_digits (c ∷ cs)) n,
)

parse_value_range :
    (unit : ℕ) (o : Option ℤ) (n : ℕ)
    → ((m : ℕ) → o ≡ some (pos m) → m < 2 ^ 63)
    → parse_value unit o ≡ days n
    → (1 ≤ n) × (n < 2 ^ 63)
parse_value_range unit none n f h = absurd (ground arith)
parse_value_range unit (some (negsuc m)) n f h = absurd (ground arith)
parse_value_range unit (some (pos m)) n f h = let l : m < 2 ^ 63 = f m refl in ground arith

parse_parts_range :
    (front : List ℕ) (unit n : ℕ) → parse_parts (front, unit) ≡ days n → (1 ≤ n) × (n < 2 ^ 63)
parse_parts_range front unit n h =
    ground (arith, parse_value_range unit (atoi front) n (λ m e. atoi_lt front m e))

-- A period that ParseDuration accepts is at least one day, and its days fit an int.
pub parse_duration-in_range :
    (s : List ℕ) (n : ℕ) → parse_duration s ≡ days n → (1 ≤ n) × (n < 2 ^ 63)
unfolding parse_duration
parse_duration-in_range [] n h = absurd (ground arith)
parse_duration-in_range (c ∷ cs) n h =
    let (front, unit) = split_last c cs in parse_parts_range front unit n h
