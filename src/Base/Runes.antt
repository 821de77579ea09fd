-- ===== src/Base/Runes.antt =====
-- `[]rune(s)`: the code points of a text.
use Prim.Native.Nat.{ℕ}
use Prim.Native.Char.{code}
use Prim.Native.String.{String, [], ◌∷◌}
use mathlib.Core.List.{List}
use tlsrpt_digest.Base.Lists.{empty, before_all}

abbrev pub runes : String → List ℕ
runes [] = empty
runes (c ∷ s) = before_all (code c) (runes s)
