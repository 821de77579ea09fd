-- ===== src/Base/Wrap.antt =====
-- Wrapping around at every step of a sum is wrapping around at its end.
use Prim.Native.Nat.{ℕ, ◌+◌, ◌-◌, ◌%◌, ◌^◌}
use mathlib.Core.Path.{◌≡◌, ap, ◌∙◌}
use native.Mathlib.Omega.{arith}
use tlsrpt_digest.Base.Tests.{ltb, if◌then◌else◌}
use tlsrpt_digest.Base.Int.{ℤ, pos, negsuc, pos_part, neg_part, ◌+ℤ◌, wrap64, int_laws}

-- the 64 bits of an integer, as a number
abbrev bits : ℤ → ℕ
bits a = (pos_part a + (2 ^ 64 - neg_part a % 2 ^ 64)) % 2 ^ 64

bits-wrap64 : (a : ℤ) → bits (wrap64 a) ≡ bits a
unfolding wrap64
bits-wrap64 a = ground arith

bits_add : (a b c : ℤ) → bits a ≡ bits b → bits (a +ℤ c) ≡ bits (b +ℤ c)
unfolding ◌+ℤ◌
bits_add a b c h = ground arith

wrap64_same : (a b : ℤ) → bits a ≡ bits b → wrap64 a ≡ wrap64 b
unfolding wrap64
wrap64_same a b h = ap (λ n. if ltb n (2 ^ 63) then pos n else negsuc (2 ^ 64 - 1 - n)) h

pub +ℤ_comm : (a b : ℤ) → a +ℤ b ≡ b +ℤ a
+ℤ_comm a b = omega int_laws

pub +ℤ_assoc : (a b c : ℤ) → a +ℤ b +ℤ c ≡ a +ℤ (b +ℤ c)
+ℤ_assoc a b c = omega int_laws

pub +ℤ_zero : (a : ℤ) → a +ℤ pos 0 ≡ a
+ℤ_zero a = omega int_laws

pub wrap64_left : (a c : ℤ) → wrap64 (wrap64 a +ℤ c) ≡ wrap64 (a +ℤ c)
wrap64_left a c = wrap64_same _ _ (bits_add (wrap64 a) a c (bits-wrap64 a))

pub wrap64_right : (a c : ℤ) → wrap64 (a +ℤ wrap64 c) ≡ wrap64 (a +ℤ c)
wrap64_right a c = ap wrap64 (+ℤ_comm a (wrap64 c)) ∙ wrap64_left c a ∙ ap wrap64 (+ℤ_comm c a)
