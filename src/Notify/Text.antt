-- ===== src/Notify/Text.antt =====
-- TruncateText of internal/notify/format.go; a text is the list of its runes.
pub mod Truncation
use tlsrpt_digest.Base.{ℕ, zero, ◌-◌, Bool, leb, List, [], ◌∷◌, ◌++◌, length, take, if◌then◌else◌}
use tlsrpt_digest.Base.Int.{ℤ, pos, negsuc}

abbrev pub trunc_suffix : List ℕ
trunc_suffix = b'.' ∷ b'.' ∷ b'.' ∷ []

unfoldable pub truncate_text : List ℕ → ℤ → List ℕ
truncate_text s (negsuc n) = []
truncate_text s (pos n) =
    if leb n 0
    then []
    else if leb n 3
    then take n trunc_suffix
    else if leb (length s) n
    then s
    else take (n - 3) s ++ trunc_suffix
