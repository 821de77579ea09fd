-- ===== src/Notify/Text/Truncation.antt =====
-- What TruncateText of internal/notify/format.go gives.
use tlsrpt_digest.Base.{
  ◌≡◌, refl, ap, ◌∙◌, sym, ◌⊎◌, inl, inr, ℕ, zero, suc, ◌-◌, ◌≤◌, ◌<◌, leb, true, false, Bool-cases,
  List, [], ◌∷◌, ◌++◌, length, take, length-append, length-take_le, arith,
}
use tlsrpt_digest.Base.Int.{ℤ, pos, pos_part, negsuc}
use tlsrpt_digest.Notify.Text.{truncate_text}

-- a text of dots
abbrev pub dots : ℕ → List ℕ
dots zero = []
dots (suc n) = b'.' ∷ dots n

-- a text `s` is cut after a part `p` of it, which three dots fill up to `n` runes
abbrev pub IsCut : List ℕ → ℕ → List ℕ → Type 0
IsCut s n t = (p : List ℕ) × (q : List ℕ) × (s ≡ p ++ q) × (t ≡ p ++ dots 3) × (length t ≡ n)

-- `t` is only dots for a limit `n` of at most three runes; else it is `s` where that has at most `n`
-- runes, and a part of `s` filled up with three dots where `s` has more
abbrev pub IsTruncated : List ℕ → ℕ → List ℕ → Type 0
IsTruncated s n t =
    ((n ≤ 3) × (t ≡ dots n))
    ⊎ (((3 < n) × (length s ≤ n) × (t ≡ s)) ⊎ ((3 < n) × (n < length s) × IsCut s n t))

abbrev drop : ℕ → List ℕ → List ℕ
drop zero s = s
drop (suc n) [] = []
drop (suc n) (c ∷ s) = drop n s

take-drop : (n : ℕ) (s : List ℕ) → s ≡ take n s ++ drop n s
take-drop zero s = refl
take-drop (suc n) [] = refl
take-drop (suc n) (c ∷ s) = ap (λ l. c ∷ l) (take-drop n s)

whole : (s : List ℕ) (n : ℕ) → 3 < n → leb (length s) n ≡ true → truncate_text s (pos n) ≡ s
unfolding truncate_text
whole s n h k = ground arith

cut :
    (s : List ℕ) (n : ℕ)
    → 3 < n
    → leb (length s) n ≡ false
    → truncate_text s (pos n) ≡ take (n - 3) s ++ dots 3
unfolding truncate_text
cut s n h k = ground arith

cut_length : (s : List ℕ) (n : ℕ) → 3 < n → n < length s → length (take (n - 3) s ++ dots 3) ≡ n
cut_length s n h k =
    let l : length (take (n - 3) s) ≡ n - 3 = length-take_le (n - 3) s (omega arith) in
    omega (arith, length-append (take (n - 3) s) (dots 3))

above_three : (s : List ℕ) (n : ℕ) → 3 < n → IsTruncated s n (truncate_text s (pos n))
above_three s n h = elim (Bool-cases (leb (length s) n)) [
  | inl k ↦ inr (inl (h, ground arith, whole s n h k))
  | inr k ↦
      let l : n < length s = ground arith in
      let e = cut s n h k in
      inr (
        inr (
          h,
          l,
          (
            take (n - 3) s,
            drop (n - 3) s,
            take-drop (n - 3) s,
            e,
            ap length e ∙ cut_length s n h l,
          ),
        ))
]

truncated : (s : List ℕ) (n : ℕ) → IsTruncated s n (truncate_text s (pos n))
unfolding truncate_text
truncated s zero = inl (omega arith, refl)
truncated s (suc zero) = inl (omega arith, refl)
truncated s (suc (suc zero)) = inl (omega arith, refl)
truncated s (suc (suc (suc zero))) = inl (omega arith, refl)
truncated s (suc (suc (suc (suc n)))) = above_three s (suc (suc (suc (suc n)))) (omega arith)

length-dots : (n : ℕ) → length (dots n) ≡ n
length-dots zero = refl
length-dots (suc n) = ap suc (length-dots n)

IsTruncated-length : (s t : List ℕ) (n : ℕ) → IsTruncated s n t → length t ≤ n
IsTruncated-length s t n (inl (h, e)) = omega (arith, ap length e, length-dots n)
IsTruncated-length s t n (inr (inl (h, l, e))) = omega (arith, ap length e)
IsTruncated-length s t n (inr (inr (h, l, (p, q, e, e', k)))) = omega (arith, k)

-- a text within the limit is as it was, unless the limit leaves only dots
again : (s t : List ℕ) (n : ℕ) → IsTruncated s n t → truncate_text t (pos n) ≡ t
again s t n h = elim (truncated t n) [
  | inl (l, e) ↦ elim h [
    | inl (l', e') ↦ e ∙ sym e'
    | inr (inl (g, l', x)) ↦ absurd (omega arith)
    | inr (inr (g, l', x)) ↦ absurd (omega arith)
  ]
  | inr (inl (g, l, e)) ↦ e
  | inr (inr (g, l, x)) ↦ absurd (omega (arith, IsTruncated-length s t n h))
]

-- What TruncateText gives for a limit, with a negative limit as 0, has at most so many runes. It is that
-- many dots for a limit of at most three; for a larger one it is the text where that fits, and where
-- it does not a first part of the text and three dots, which fill the limit. To truncate it again with
-- the same limit changes nothing.
pub truncate_text-fits :
    (s : List ℕ) (limit : ℤ)
    → let t = truncate_text s limit in
      (length t ≤ pos_part limit) × IsTruncated s (pos_part limit) t × (truncate_text t limit ≡ t)
unfolding truncate_text
truncate_text-fits s (negsuc m) = (omega arith, inl (omega arith, refl), refl)
truncate_text-fits s (pos n) =
    let t = truncate_text s (pos n) in
    let h = truncated s n in (IsTruncated-length s t n h, h, again s t n h)
