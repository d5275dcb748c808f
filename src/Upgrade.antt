-- ===== src/Upgrade.antt =====
-- cmd/serialhub/upgrade.go: how versions are compared. An upgrade is in the child modules.
pub mod Archive
pub mod Extraction
pub mod Install
pub mod Release
pub mod Replacement
pub mod Verified
pub mod Order
pub mod Releases
use serial_hub.Prelude.{
  ℕ, List, [], ◌∷◌, ◌++◌, Bool, true, false, ◌&&◌, ◌||◌, Option, none, some, Bytes, codes, ℤ, pos,
  negsuc, ltb, leb, ◌==◌, ltb_ℤ, if◌then◌else◌, is_empty, bytes_eq,
}
use mathlib.Core.List.{reverse}
use serial_hub.Decimal.{atoi}

-- The results -1, 0 and 1.
pub data Comparison : Type 0 where
  less equal greater : Comparison

abbrev pub is_space : ℕ → Bool
is_space c = c == 32 || (leb 9 c && leb c 13)

unfoldable pub trim_left : Bytes → Bytes
trim_left [] = []
trim_left (c ∷ s) = let rest = trim_left s in if is_space c then rest else c ∷ s

-- `strings.TrimSpace` on ASCII text.
unfoldable pub trim_space : Bytes → Bytes
unfolding trim_left
trim_space s = reverse (trim_left (reverse (trim_left s)))

abbrev without_v : Bytes → Bytes
without_v [] = []
without_v (c ∷ s) = if c == b'v' then s else c ∷ s

unfoldable pub trim_v_prefix : Bytes → Bytes
unfolding trim_space
trim_v_prefix tag = without_v (trim_space tag)

abbrev in_front : ℕ → List Bytes → List Bytes
in_front c [] = (c ∷ []) ∷ []
in_front c (part ∷ parts) = (c ∷ part) ∷ parts

-- `strings.Split(s, ".")`.
unfoldable pub split_dots : Bytes → List Bytes
split_dots [] = [] ∷ []
split_dots (c ∷ s) = let rest = split_dots s in if c == b'.' then [] ∷ rest else in_front c rest

abbrev pub compare_ℤ : ℤ → ℤ → Comparison
compare_ℤ a b = if ltb_ℤ a b then less else if ltb_ℤ b a then greater else equal

-- `strings.Compare`.
unfoldable pub compare_text : Bytes → Bytes → Comparison
compare_text [] [] = equal
compare_text [] (y ∷ t) = less
compare_text (x ∷ s) [] = greater
compare_text (x ∷ s) (y ∷ t) =
    let rest = compare_text s t in if ltb x y then less else if ltb y x then greater else rest

abbrev is_digit : ℕ → Bool
is_digit c = leb b'0' c && leb c b'9'

-- The digits at the front, and what follows.
unfoldable pub leading_digits : Bytes → Bytes × Bytes
leading_digits [] = ([], [])
leading_digits (c ∷ s) =
    let (ds, rest) = leading_digits s in if is_digit c then (c ∷ ds, rest) else ([], c ∷ s)

abbrev numbered : Bytes → Bytes → Option ℤ → ℤ × Bytes
numbered s rest none = (negsuc 0, s)
numbered s rest (some n) = (n, rest)

unfoldable pub split_leading_digits : Bytes → ℤ × Bytes
unfolding leading_digits
split_leading_digits s =
    let (ds, rest) = leading_digits s in
    if is_empty ds then (negsuc 0, s) else numbered s rest (atoi ds)

-- No suffix is greater than any suffix.
abbrev pub compare_suffixes : Bytes → Bytes → Comparison
compare_suffixes s t =
    if bytes_eq s t
    then equal
    else if is_empty s
    then greater
    else if is_empty t
    then less
    else compare_text s t

abbrev pub compare_numbered : ℤ × Bytes → ℤ × Bytes → Comparison
compare_numbered (m, s) (n, t) =
    if ltb_ℤ m n then less else if ltb_ℤ n m then greater else compare_suffixes s t

abbrev pub compare_read : Option ℤ → Option ℤ → Comparison → Comparison
compare_read (some m) (some n) c = compare_ℤ m n
compare_read (some m) none c = c
compare_read none n c = c

unfoldable pub compare_part : Bytes → Bytes → Comparison
unfolding split_leading_digits compare_text
compare_part a b =
    compare_read (atoi a) (atoi b)
      (compare_numbered (split_leading_digits a) (split_leading_digits b))

abbrev pub or_else : Comparison → Comparison → Comparison
or_else equal c = c
or_else less c = less
or_else greater c = greater

-- A part that is missing counts xs `0`.
unfoldable pub compare_parts : List Bytes → List Bytes → Comparison
compare_parts [] [] = equal
compare_parts [] (b ∷ ys) = or_else (compare_part (codes "0") b) (compare_parts [] ys)
compare_parts (a ∷ xs) [] = or_else (compare_part a (codes "0")) (compare_parts xs [])
compare_parts (a ∷ xs) (b ∷ ys) = or_else (compare_part a b) (compare_parts xs ys)

unfoldable pub compare_version : Bytes → Bytes → Comparison
unfolding compare_parts trim_v_prefix split_dots
compare_version a b = compare_parts (split_dots (trim_v_prefix a)) (split_dots (trim_v_prefix b))
