-- ===== src/Upgrade/Releases.antt =====
-- The comparison of release tags made of numbers (cmd/serialhub/upgrade.go).
use mathlib.Core.List.{reverse, reverse-cons, reverse-reverse}
use serial_hub.Prelude.{
  ℕ, zero, suc, ◌/◌, ◌≡◌, ◌<◌, ◌≤◌, ◌^◌, refl, ◌∙◌, ap, List, [], ◌∷◌, ◌++◌, Bytes, codes, arith,
  Bool-cases, inl, inr, ltb, map, All, All-append, if◌then◌else◌,
}
use serial_hub.Decimal.{format, digits, atoi-format}
use serial_hub.Upgrade.{
  Comparison, less, equal, greater, compare_part, or_else, compare_parts, compare_version,
  split_dots, trim_v_prefix, trim_space, trim_left,
}

-- A character of a number.
abbrev IsDigit : ℕ → Type 0
IsDigit c = (b'0' ≤ c) × (c ≤ b'9')

digits-IsDigit : (f n : ℕ) (out : Bytes) → All IsDigit out → All IsDigit (digits f n out)
unfolding digits
digits-IsDigit zero n out h = h
digits-IsDigit (suc f) n out h = elim (Bool-cases (ltb n 10)) [
  | inl small ↦ rw small ((omega arith, ground arith), h)
  | inr large ↦ rw large (digits-IsDigit f (n / 10) _ ((omega arith, omega arith), h))
]

format-IsDigit : (n : ℕ) → All IsDigit (format n)
unfolding format
format-IsDigit n = digits-IsDigit (suc n) n [] tt

-- `1.2.3` for `1` and `2, 3`.
pub dotted : ℕ → List ℕ → Bytes
dotted n [] = format n
dotted n (m ∷ ns) = format n ++ b'.' ∷ dotted m ns

split_dots-digits : (s : Bytes) → All IsDigit s → split_dots s ≡ s ∷ []
unfolding split_dots
split_dots-digits [] h = refl
split_dots-digits (c ∷ s) ((l, u), h) = rw (split_dots-digits s h) (ground arith)

split_dots-dot : (s t : Bytes) → All IsDigit s → split_dots (s ++ b'.' ∷ t) ≡ s ∷ split_dots t
unfolding split_dots
split_dots-dot [] t h = refl
split_dots-dot (c ∷ s) t ((l, u), h) = rw (split_dots-dot s t h) (ground arith)

split_dots-dotted : (n : ℕ) (ns : List ℕ) → split_dots (dotted n ns) ≡ map format (n ∷ ns)
unfolding dotted
split_dots-dotted n [] = split_dots-digits (format n) (format-IsDigit n)
split_dots-dotted n (m ∷ ns) =
    split_dots-dot (format n) (dotted m ns) (format-IsDigit n)
    ∙ ap (◌∷◌ (format n)) (split_dots-dotted m ns)

abbrev IsVisible : ℕ → Type 0
IsVisible c = 32 < c

digits-IsVisible : (s : Bytes) → All IsDigit s → All IsVisible s
digits-IsVisible [] h = tt
digits-IsVisible (c ∷ s) ((l, u), h) = (omega arith, digits-IsVisible s h)

dotted-IsVisible : (n : ℕ) (ns : List ℕ) → All IsVisible (dotted n ns)
unfolding dotted
dotted-IsVisible n [] = digits-IsVisible (format n) (format-IsDigit n)
dotted-IsVisible n (m ∷ ns) =
    All-append IsVisible (format n) (b'.' ∷ dotted m ns) (digits-IsVisible _ (format-IsDigit n))
      (omega arith, dotted-IsVisible m ns)

reverse-IsVisible : (s : Bytes) → All IsVisible s → All IsVisible (reverse s)
reverse-IsVisible [] h = tt
reverse-IsVisible (c ∷ s) (v, h) =
    rw (reverse-cons c s)
      (All-append IsVisible (reverse s) (c ∷ []) (reverse-IsVisible s h) (v, tt))

trim_left-IsVisible : (s : Bytes) → All IsVisible s → trim_left s ≡ s
unfolding trim_left
trim_left-IsVisible [] h = refl
trim_left-IsVisible (c ∷ s) (v, h) = ground (arith, trim_left-IsVisible s h)

trim_space-IsVisible : (s : Bytes) → All IsVisible s → trim_space s ≡ s
unfolding trim_space
trim_space-IsVisible s h =
    rw (trim_left-IsVisible s h)
      (rw (trim_left-IsVisible (reverse s) (reverse-IsVisible s h)) (reverse-reverse s))

trim_v_prefix-v : (s : Bytes) → All IsVisible s → trim_v_prefix (b'v' ∷ s) ≡ s
unfolding trim_v_prefix
trim_v_prefix-v s h = rw (trim_space-IsVisible (b'v' ∷ s) (omega arith, h)) refl

-- Numbers that `Atoi` reads.
abbrev pub IsInt : ℕ → Type 0
IsInt n = n < 2 ^ 63

abbrev pub compare_numbers : ℕ → ℕ → Comparison
compare_numbers m n = if ltb m n then less else if ltb n m then greater else equal

-- The first number that differs decides; numbers that are missing are 0.
pub compare_lists : List ℕ → List ℕ → Comparison
compare_lists [] [] = equal
compare_lists [] (n ∷ ns) = or_else (compare_numbers 0 n) (compare_lists [] ns)
compare_lists (m ∷ ms) [] = or_else (compare_numbers m 0) (compare_lists ms [])
compare_lists (m ∷ ms) (n ∷ ns) = or_else (compare_numbers m n) (compare_lists ms ns)

compare_part-format :
    (m n : ℕ) → IsInt m → IsInt n → compare_part (format m) (format n) ≡ compare_numbers m n
unfolding compare_part
compare_part-format m n h k = rw (atoi-format m h, atoi-format n k) (ground arith)

zero_format : codes "0" ≡ format 0
unfolding format
zero_format = refl

zero_left : (n : ℕ) → IsInt n → compare_part (codes "0") (format n) ≡ compare_numbers 0 n
zero_left n k =
    ap (λ z. compare_part z (format n)) zero_format ∙ compare_part-format 0 n (omega arith) k

zero_right : (m : ℕ) → IsInt m → compare_part (format m) (codes "0") ≡ compare_numbers m 0
zero_right m k =
    ap (λ z. compare_part (format m) z) zero_format ∙ compare_part-format m 0 k (omega arith)

compare_parts-format :
    (ms ns : List ℕ)
    → All IsInt ms
    → All IsInt ns
    → compare_parts (map format ms) (map format ns) ≡ compare_lists ms ns
unfolding compare_parts compare_lists
compare_parts-format [] [] h k = refl
compare_parts-format [] (n ∷ ns) h (b, k) = rw (zero_left n b, compare_parts-format [] ns tt k) refl
compare_parts-format (m ∷ ms) [] (a, h) k =
    rw (zero_right m a, compare_parts-format ms [] h tt) refl
compare_parts-format (m ∷ ms) (n ∷ ns) (a, h) (b, k) =
    rw (compare_part-format m n a b, compare_parts-format ms ns h k) refl

-- Tags of the form v1.2.3, with any number of parts below 2^63, are compared by the first number
-- that differs, where missing numbers are 0.
pub compare_version-dotted :
    (m n : ℕ) (ms ns : List ℕ)
    → All IsInt (m ∷ ms)
    → All IsInt (n ∷ ns)
    → compare_version (b'v' ∷ dotted m ms) (b'v' ∷ dotted n ns) ≡ compare_lists (m ∷ ms) (n ∷ ns)
unfolding compare_version
compare_version-dotted m n ms ns h k =
    rw
      (
        trim_v_prefix-v (dotted m ms) (dotted-IsVisible m ms),
        trim_v_prefix-v (dotted n ns) (dotted-IsVisible n ns),
        split_dots-dotted m ms,
        split_dots-dotted n ns,
      )
      (compare_parts-format (m ∷ ms) (n ∷ ns) h k)
