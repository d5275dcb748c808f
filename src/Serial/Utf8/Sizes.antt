-- ===== src/Serial/Utf8/Sizes.antt =====
-- How long the encodings of runes are (unicode/utf8, for pkg/serial/manager.go).
use serial_hub.Prelude.{◌<◌, ◌⊎◌, ℕ, ◌≤◌, ◌≡◌, [], ◌∷◌, Bytes, arith, ◌==◌, false, length}
use serial_hub.Serial.Utf8.{two, three, four, rune_size}

pub size_two : (x c : ℕ) → 0xc2 ≤ c → (rune_size x (c ∷ []) == 2) ≡ false
unfolding rune_size two three four
size_two x c h = ground arith

pub size_three : (x y c : ℕ) → 0xc2 ≤ c → (rune_size x (y ∷ c ∷ []) == 3) ≡ false
unfolding rune_size two three four
size_three x y c h = ground arith

pub size_four : (x y z c : ℕ) → 0xc2 ≤ c → (rune_size x (y ∷ z ∷ c ∷ []) == 4) ≡ false
unfolding rune_size two three four
size_four x y z c h = ground arith

abbrev pub Tail : ℕ → Type 0
Tail a = (0x80 ≤ a) × (a ≤ 0xbf)

pub rune_of_two : (c a : ℕ) → rune_size c (a ∷ []) ≡ 2 → (0xc2 ≤ c) × (c ≤ 0xdf) × Tail a
unfolding rune_size two three four
rune_of_two c a h = ground arith

pub rune_of_three :
    (c a b : ℕ) → rune_size c (a ∷ b ∷ []) ≡ 3 → (0xe0 ≤ c) × (c ≤ 0xef) × Tail a × Tail b
unfolding rune_size two three four
rune_of_three c a b h = ground arith

two-le : (s : Bytes) → two s ≤ 2
unfolding two
two-le [] = omega arith
two-le (a ∷ s) = ground arith

three-le : (lo hi : ℕ) (s : Bytes) → three lo hi s ≤ 3
unfolding three
three-le lo hi [] = omega arith
three-le lo hi (a ∷ []) = omega arith
three-le lo hi (a ∷ b ∷ s) = ground arith

four-le : (lo hi : ℕ) (s : Bytes) → four lo hi s ≤ 4
unfolding four
four-le lo hi [] = omega arith
four-le lo hi (a ∷ []) = omega arith
four-le lo hi (a ∷ b ∷ []) = omega arith
four-le lo hi (a ∷ b ∷ c ∷ s) = ground arith

four_tails :
    (lo hi a b d : ℕ)
    → 0x80 ≤ lo
    → hi ≤ 0xbf
    → four lo hi (a ∷ b ∷ d ∷ []) ≡ 4
    → Tail a × Tail b × Tail d
unfolding four
four_tails lo hi a b d l h e = ground arith

pub rune_of_four :
    (c a b d : ℕ) → rune_size c (a ∷ b ∷ d ∷ []) ≡ 4 → (0xf0 ≤ c) × Tail a × Tail b × Tail d
unfolding rune_size
rune_of_four c a b d h = ground (
  arith,
  two-le (a ∷ b ∷ d ∷ []),
  three-le 0xa0 0xbf (a ∷ b ∷ d ∷ []),
  three-le 0x80 0xbf (a ∷ b ∷ d ∷ []),
  three-le 0x80 0x9f (a ∷ b ∷ d ∷ []),
  four_tails 0x90 0xbf a b d,
  four_tails 0x80 0xbf a b d,
  four_tails 0x80 0x8f a b d,
)

pub size_short : (c a : ℕ) → 0xe0 ≤ c → (rune_size c (a ∷ []) == 2) ≡ false
unfolding rune_size two three four
size_short c a h = ground arith

pub size_shorter : (c a b : ℕ) → 0xf0 ≤ c → (rune_size c (a ∷ b ∷ []) == 3) ≡ false
unfolding rune_size two three four
size_shorter c a b h = ground arith

pub too_long : (c : ℕ) (s : Bytes) → rune_size c s ≤ 4
unfolding rune_size
too_long c s = ground (
  arith,
  two-le s,
  three-le 0xa0 0xbf s,
  three-le 0x80 0xbf s,
  three-le 0x80 0x9f s,
  four-le 0x90 0xbf s,
  four-le 0x80 0xbf s,
  four-le 0x80 0x8f s,
)

pub rune_of_one : (c : ℕ) → c < 0x80 → rune_size c [] ≡ 1
unfolding rune_size
rune_of_one c h = ground arith

-- `c ∷ s` is a rune: an ASCII character, or the encoding of a longer one.
abbrev pub IsRune : ℕ → Bytes → Type 0
IsRune c s = (rune_size c s ≡ length (c ∷ s)) × ((c < 0x80) ⊎ (1 ≤ length s))
