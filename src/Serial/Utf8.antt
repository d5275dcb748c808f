-- ===== src/Serial/Utf8.antt =====
-- unicode/utf8 as the reading loop uses it (pkg/serial/manager.go): whether the last rune of some
-- bytes is a whole one. Texts are read backwards here: a list of bytes with the last one first.
pub mod Sizes
use serial_hub.Prelude.{
  ℕ, zero, suc, [], ◌∷◌, Bool, false, ◌&&◌, ◌||◌, Bytes, ltb, leb, ◌==◌, if◌then◌else◌, not, length,
}

-- A byte 10xxxxxx, that is `!utf8.RuneStart(b)`.
abbrev pub is_continuation : ℕ → Bool
is_continuation c = leb 0x80 c && ltb c 0xc0

abbrev pub between : ℕ → ℕ → ℕ → Bool
between lo c hi = leb lo c && leb c hi

-- The size that `utf8.DecodeRune` gives for the bytes `c ∷ s`: 1 for an invalid encoding.
unfoldable pub two : Bytes → ℕ
two [] = 1
two (a ∷ s) = if between 0x80 a 0xbf then 2 else 1

unfoldable pub three : ℕ → ℕ → Bytes → ℕ
three lo hi [] = 1
three lo hi (a ∷ []) = 1
three lo hi (a ∷ b ∷ s) = if between lo a hi && between 0x80 b 0xbf then 3 else 1

unfoldable pub four : ℕ → ℕ → Bytes → ℕ
four lo hi [] = 1
four lo hi (a ∷ []) = 1
four lo hi (a ∷ b ∷ []) = 1
four lo hi (a ∷ b ∷ c ∷ s) =
    if between lo a hi && between 0x80 b 0xbf && between 0x80 c 0xbf then 4 else 1

unfoldable pub rune_size : ℕ → Bytes → ℕ
rune_size c s =
    if between 0xc2 c 0xdf
    then two s
    else if c == 0xe0
    then three 0xa0 0xbf s
    else if between 0xe1 c 0xec || between 0xee c 0xef
    then three 0x80 0xbf s
    else if c == 0xed
    then three 0x80 0x9f s
    else if c == 0xf0
    then four 0x90 0xbf s
    else if between 0xf1 c 0xf3
    then four 0x80 0xbf s
    else if c == 0xf4
    then four 0x80 0x8f s
    else 1

-- The loop of `utf8.DecodeLastRune` behind the bytes `seen`, at most `n` more bytes back: the size
-- of the rune that ends the text.
unfoldable pub last_rune_loop : ℕ → Bytes → Bytes → ℕ
last_rune_loop zero seen before = 1
last_rune_loop (suc n) seen [] = 1
last_rune_loop (suc n) seen (c ∷ before) =
    let further = last_rune_loop n (c ∷ seen) before in
    if is_continuation c
    then further
    else if rune_size c seen == length (c ∷ seen)
    then length (c ∷ seen)
    else 1

-- `_, size := utf8.DecodeLastRune(data)` for the text whose reverse is given.
unfoldable pub last_rune_size : Bytes → ℕ
unfolding last_rune_loop
last_rune_size [] = 0
last_rune_size (c ∷ before) = if ltb c 0x80 then 1 else last_rune_loop 3 (c ∷ []) before

-- The loop that looks for the start byte of an incomplete rune: what stays, reversed, and what is
-- held back.
unfoldable pub hold_back : Bytes → Bytes → Bytes × Bytes
hold_back held [] = ([], held)
hold_back held (c ∷ before) =
    let further = hold_back (c ∷ held) before in
    if not (is_continuation c) then (before, c ∷ held) else further

-- Whether the last rune of a text, whose reverse is given, is incomplete.
unfoldable pub is_incomplete : Bytes → Bool
unfolding last_rune_size
is_incomplete [] = false
is_incomplete (c ∷ before) = (last_rune_size (c ∷ before) == 1) && leb 0x80 c
