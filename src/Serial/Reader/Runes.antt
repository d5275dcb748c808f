-- ===== src/Serial/Reader/Runes.antt =====
-- Where the reading loop cuts its data (pkg/serial/manager.go).
use mathlib.Core.List.{reverse, reverse-append, reverse-reverse}
use serial_hub.Prelude.{
  ◌<◌, inl, inr, zero, suc, if◌then◌else◌, take, ℕ, ◌≤◌, [], ◌∷◌, ◌++◌, true, Bytes, ◌≡◌, arith,
  ◌==◌, false, length,
}
use serial_hub.Serial.Reader.{split_runes}
use serial_hub.Serial.Utf8.{is_incomplete, rune_size, hold_back}
use serial_hub.Serial.Utf8.Sizes.{
  Tail, IsRune, size_two, size_three, size_four, rune_of_two, rune_of_three, rune_of_four,
  size_short, size_shorter, too_long,
}

-- A text that ends in the first byte of a longer rune ends in an incomplete rune.
lead_incomplete : (c : ℕ) (before : Bytes) → 0xc2 ≤ c → is_incomplete (c ∷ before) ≡ true
unfolding is_incomplete
lead_incomplete c [] h = ground arith
lead_incomplete c (x ∷ []) h = rw (size_two x c h) (ground arith)
lead_incomplete c (x ∷ y ∷ []) h = rw (size_two x c h, size_three y x c h) (ground arith)
lead_incomplete c (x ∷ y ∷ z ∷ before) h =
    rw (size_two x c h, size_three y x c h, size_four z y x c h) (ground arith)

-- The rune `c`, `a` and more, seen from behind.
one-Tail_incomplete :
    (c a : ℕ) (before : Bytes) → 0xe0 ≤ c → Tail a → is_incomplete (a ∷ c ∷ before) ≡ true
unfolding is_incomplete
one-Tail_incomplete c a before h t = rw (size_short c a h) (ground arith)

two_tails_incomplete :
    (c a b : ℕ) (before : Bytes)
    → 0xf0 ≤ c
    → Tail a
    → Tail b
    → is_incomplete (b ∷ a ∷ c ∷ before) ≡ true
unfolding is_incomplete
two_tails_incomplete c a b before h t u = rw (size_shorter c a b h) (ground arith)

hold_none : (c : ℕ) (before : Bytes) → 0xc2 ≤ c → hold_back [] (c ∷ before) ≡ (before, c ∷ [])
unfolding hold_back
hold_none c before h = ground arith

hold_one :
    (c a : ℕ) (before : Bytes)
    → 0xc2 ≤ c
    → Tail a
    → hold_back [] (a ∷ c ∷ before) ≡ (before, c ∷ a ∷ [])
unfolding hold_back
hold_one c a before h t = ground arith

hold_two :
    (c a b : ℕ) (before : Bytes)
    → 0xc2 ≤ c
    → Tail a
    → Tail b
    → hold_back [] (b ∷ a ∷ c ∷ before) ≡ (before, c ∷ a ∷ b ∷ [])
unfolding hold_back
hold_two c a b before h t u = ground arith

-- From a text seen from behind back to the text.
split_cut :
    (front part : Bytes)
    → is_incomplete (reverse part ++ reverse front) ≡ true
    → hold_back [] (reverse part ++ reverse front) ≡ (reverse front, part)
    → split_runes (front ++ part) ≡ (front, part)
unfolding split_runes
split_cut front part cut held = rw (reverse-append front part, cut, held, reverse-reverse front)

split_whole :
    (front part : Bytes)
    → is_incomplete (reverse part ++ reverse front) ≡ false
    → split_runes (front ++ part) ≡ (front ++ part, [])
unfolding split_runes
split_whole front part whole = rw (reverse-append front part, whole)

whole_two :
    (c a : ℕ) (before : Bytes) → rune_size c (a ∷ []) ≡ 2 → is_incomplete (a ∷ c ∷ before) ≡ false
unfolding is_incomplete
whole_two c a before h = let r = rune_of_two c a h in rw h (ground (arith, r))

whole_three :
    (c a b : ℕ) (before : Bytes)
    → rune_size c (a ∷ b ∷ []) ≡ 3
    → is_incomplete (b ∷ a ∷ c ∷ before) ≡ false
unfolding is_incomplete
whole_three c a b before h = let r = rune_of_three c a b h in rw h (ground (arith, r))

whole_four :
    (c a b d : ℕ) (before : Bytes)
    → rune_size c (a ∷ b ∷ d ∷ []) ≡ 4
    → is_incomplete (d ∷ b ∷ a ∷ c ∷ before) ≡ false
unfolding is_incomplete
whole_four c a b d before h = let r = rune_of_four c a b d h in rw h (ground (arith, r))

whole_one : (c : ℕ) (before : Bytes) → c < 0x80 → is_incomplete (c ∷ before) ≡ false
unfolding is_incomplete
whole_one c before h = ground arith

-- Whatever comes before it: if the bytes read so far end in the first bytes of a rune, but not in
-- the whole of it, exactly these are held back; and if they end in a whole rune, an ASCII character
-- or a longer one, nothing is.
pub split_runes_lem :
    (front : Bytes) (c : ℕ) (s : Bytes) (k : ℕ)
    → IsRune c s
    → k ≤ length s
    → split_runes (front ++ c ∷ take k s)
      ≡ (if k == length s then (front ++ c ∷ s, []) else (front, c ∷ take k s))
split_runes_lem front c [] zero (r, inl small) h =
    split_whole front (c ∷ []) (whole_one c (reverse front) small)
split_runes_lem front c [] zero (r, inr long) h = absurd (omega arith)
split_runes_lem front c [] (suc k) (r, long) h = absurd (omega arith)
split_runes_lem front c (a ∷ []) zero (r, long) h =
    let f = rune_of_two c a r in
    split_cut front (c ∷ []) (lead_incomplete c _ f.0) (hold_none c _ f.0)
split_runes_lem front c (a ∷ []) (suc zero) (r, long) h =
    split_whole front (c ∷ a ∷ []) (whole_two c a (reverse front) r)
split_runes_lem front c (a ∷ []) (suc (suc k)) (r, long) h = absurd (omega arith)
split_runes_lem front c (a ∷ b ∷ []) zero (r, long) h =
    let f = rune_of_three c a b r in
    split_cut front (c ∷ []) (lead_incomplete c _ (omega arith)) (hold_none c _ (omega arith))
split_runes_lem front c (a ∷ b ∷ []) (suc zero) (r, long) h =
    let f = rune_of_three c a b r in
    split_cut front (c ∷ a ∷ []) (one-Tail_incomplete c a _ f.0 f.2)
      (hold_one c a _ (omega arith) f.2)
split_runes_lem front c (a ∷ b ∷ []) (suc (suc zero)) (r, long) h =
    split_whole front (c ∷ a ∷ b ∷ []) (whole_three c a b (reverse front) r)
split_runes_lem front c (a ∷ b ∷ []) (suc (suc (suc k))) (r, long) h = absurd (omega arith)
split_runes_lem front c (a ∷ b ∷ d ∷ []) zero (r, long) h =
    let f = rune_of_four c a b d r in
    split_cut front (c ∷ []) (lead_incomplete c _ (omega arith)) (hold_none c _ (omega arith))
split_runes_lem front c (a ∷ b ∷ d ∷ []) (suc zero) (r, long) h =
    let f = rune_of_four c a b d r in
    split_cut front (c ∷ a ∷ []) (one-Tail_incomplete c a _ (omega arith) f.1)
      (hold_one c a _ (omega arith) f.1)
split_runes_lem front c (a ∷ b ∷ d ∷ []) (suc (suc zero)) (r, long) h =
    let f = rune_of_four c a b d r in
    split_cut front (c ∷ a ∷ b ∷ []) (two_tails_incomplete c a b _ f.0 f.1 f.2)
      (hold_two c a b _ (omega arith) f.1 f.2)
split_runes_lem front c (a ∷ b ∷ d ∷ []) (suc (suc (suc zero))) (r, long) h =
    split_whole front (c ∷ a ∷ b ∷ d ∷ []) (whole_four c a b d (reverse front) r)
split_runes_lem front c (a ∷ b ∷ d ∷ []) (suc (suc (suc (suc k)))) (r, long) h =
    absurd (omega arith)
split_runes_lem front c (a ∷ b ∷ d ∷ e ∷ s) k (r, long) h =
    absurd (omega (arith, too_long c (a ∷ b ∷ d ∷ e ∷ s)))
