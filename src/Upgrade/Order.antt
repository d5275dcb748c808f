-- ===== src/Upgrade/Order.antt =====
-- The comparison of versions in both directions (cmd/serialhub/upgrade.go).
use serial_hub.Prelude.{
  ℕ, ◌≡◌, refl, List, [], ◌∷◌, Option, none, some, Bytes, codes, ℤ, arith, bytes_eq, bytes_eq_iff,
  bytes_eq_refl,
}
use serial_hub.Decimal.{atoi}
use serial_hub.Upgrade.{
  Comparison, less, equal, greater, compare_ℤ, compare_text, compare_suffixes, compare_numbered,
  compare_read, compare_part, or_else, compare_parts, compare_version, split_leading_digits,
  split_dots, trim_v_prefix,
}

abbrev pub opposite : Comparison → Comparison
opposite less = greater
opposite equal = equal
opposite greater = less

bytes_eq_comm : (s t : Bytes) → bytes_eq s t ≡ bytes_eq t s
bytes_eq_comm s t = ground (arith, bytes_eq_iff s t, bytes_eq_iff t s)

compare_ℤ-opposite : (m n : ℤ) → compare_ℤ n m ≡ opposite (compare_ℤ m n)
compare_ℤ-opposite m n = ground arith

compare_text-opposite : (s t : Bytes) → compare_text t s ≡ opposite (compare_text s t)
unfolding compare_text
compare_text-opposite [] [] = refl
compare_text-opposite [] (y ∷ t) = refl
compare_text-opposite (x ∷ s) [] = refl
compare_text-opposite (x ∷ s) (y ∷ t) = ground (arith, compare_text-opposite s t)

cons-opposite :
    (x y : ℕ) (s t : Bytes)
    → compare_suffixes (y ∷ t) (x ∷ s) ≡ opposite (compare_suffixes (x ∷ s) (y ∷ t))
cons-opposite x y s t =
    rw (bytes_eq_comm (y ∷ t) (x ∷ s)) (ground (arith, compare_text-opposite (x ∷ s) (y ∷ t)))

compare_suffixes-opposite : (s t : Bytes) → compare_suffixes t s ≡ opposite (compare_suffixes s t)
unfolding bytes_eq
compare_suffixes-opposite [] [] = refl
compare_suffixes-opposite [] (y ∷ t) = refl
compare_suffixes-opposite (x ∷ s) [] = refl
compare_suffixes-opposite (x ∷ s) (y ∷ t) = cons-opposite x y s t

compare_numbered-opposite :
    (x y : ℤ × Bytes) → compare_numbered y x ≡ opposite (compare_numbered x y)
compare_numbered-opposite (m, s) (n, t) = ground (arith, compare_suffixes-opposite s t)

compare_part-opposite : (a b : Bytes) → compare_part b a ≡ opposite (compare_part a b)
unfolding compare_part
compare_part-opposite a b =
    read-opposite (atoi a) (atoi b) _ _
      (compare_numbered-opposite (split_leading_digits a) (split_leading_digits b))
  where
    read-opposite :
        (m n : Option ℤ) (c d : Comparison)
        → d ≡ opposite c
        → compare_read n m d ≡ opposite (compare_read m n c)
    read-opposite (some m) (some n) c d h = compare_ℤ-opposite m n
    read-opposite (some m) none c d h = h
    read-opposite none (some n) c d h = h
    read-opposite none none c d h = h

or_else-opposite :
    (c d c' d' : Comparison)
    → c' ≡ opposite c
    → d' ≡ opposite d
    → or_else c' d' ≡ opposite (or_else c d)
or_else-opposite c d c' d' h k = ground arith

compare_parts-opposite : (xs ys : List Bytes) → compare_parts ys xs ≡ opposite (compare_parts xs ys)
unfolding compare_parts
compare_parts-opposite [] [] = refl
compare_parts-opposite [] (b ∷ ys) =
    or_else-opposite _ _ _ _ (compare_part-opposite (codes "0") b) (compare_parts-opposite [] ys)
compare_parts-opposite (a ∷ xs) [] =
    or_else-opposite _ _ _ _ (compare_part-opposite a (codes "0")) (compare_parts-opposite xs [])
compare_parts-opposite (a ∷ xs) (b ∷ ys) =
    or_else-opposite _ _ _ _ (compare_part-opposite a b) (compare_parts-opposite xs ys)

compare_part_self : (a : Bytes) → compare_part a a ≡ equal
unfolding compare_part
compare_part_self a = self (atoi a) (split_leading_digits a)
  where
    self : (m : Option ℤ) (x : ℤ × Bytes) → compare_read m m (compare_numbered x x) ≡ equal
    self (some m) x = ground arith
    self none (m, s) = ground (arith, bytes_eq_refl s)

compare_parts_self : (xs : List Bytes) → compare_parts xs xs ≡ equal
unfolding compare_parts
compare_parts_self [] = refl
compare_parts_self (x ∷ xs) = rw (compare_part_self x) (compare_parts_self xs)

-- Every version equals itself, and comparing the other way round gives the opposite: of two
-- versions at most one is newer, so no two releases are each offered as an upgrade of the other.
pub compare_version-opposite :
    (a b : Bytes)
    → (compare_version a a ≡ equal) × (compare_version b a ≡ opposite (compare_version a b))
unfolding compare_version
compare_version-opposite a b = (
  compare_parts_self (split_dots (trim_v_prefix a)),
  compare_parts-opposite (split_dots (trim_v_prefix a)) (split_dots (trim_v_prefix b)),
)
