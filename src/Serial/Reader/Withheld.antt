-- ===== src/Serial/Reader/Withheld.antt =====
-- Data that is no text: what the reading loop holds back of it (pkg/serial/manager.go).
use mathlib.Core.List.{reverse, reverse-cons, reverse-reverse}
use mathlib.Core.Path.{subst}
use serial_hub.Prelude.{
  ℕ, zero, suc, [], ◌∷◌, ◌++◌, Bytes, ◌≡◌, ◌≢◌, refl, ap, sym, ◌∙◌, true, arith, All, All-append,
  append-nil, append_assoc,
}
use serial_hub.Serial.Utf8.{hold_back, is_incomplete, last_rune_loop}
use serial_hub.Serial.Utf8.Sizes.{Tail}
use serial_hub.Serial.Reader.{split_runes}

loop_tails : (n : ℕ) (seen before : Bytes) → All Tail before → last_rune_loop n seen before ≡ 1
unfolding last_rune_loop
loop_tails zero seen before h = refl
loop_tails (suc n) seen [] h = refl
loop_tails (suc n) seen (c ∷ before) h = ground (arith, loop_tails n (c ∷ seen) before h.1)

tails_incomplete :
    (c : ℕ) (before : Bytes) → All Tail (c ∷ before) → is_incomplete (c ∷ before) ≡ true
unfolding is_incomplete
tails_incomplete c before h = ground (arith, loop_tails 3 (c ∷ []) before h.1)

hold_tails :
    (held before : Bytes) → All Tail before → hold_back held before ≡ ([], reverse before ++ held)
unfolding hold_back
hold_tails held [] h = refl
hold_tails held (c ∷ before) h = ground (
  arith,
  hold_tails (c ∷ held) before h.1,
  ap (λ l. l ++ held) (reverse-cons c before),
  append_assoc (reverse before) (c ∷ []) held,
)

All-reverse : (s : Bytes) → All Tail s → All Tail (reverse s)
All-reverse [] h = tt
All-reverse (c ∷ s) h =
    subst (All Tail) (sym (reverse-cons c s))
      (All-append Tail (reverse s) (c ∷ []) (All-reverse s h.1) (h.0, tt))

split_backwards :
    (text before : Bytes)
    → reverse text ≡ before
    → text ≢ []
    → All Tail before
    → split_runes text ≡ ([], text)
unfolding split_runes
split_backwards text [] e n h = absurd (n (sym (reverse-reverse text) ∙ ap reverse e))
split_backwards text (c ∷ before) e n h =
    rw (e, tails_incomplete c before h, hold_tails [] (c ∷ before) h)
      (ap (λ l. ([], l))
        (append-nil (reverse (c ∷ before)) ∙ sym (ap reverse e) ∙ reverse-reverse text))

-- If what was read and held back so far is non-empty and consists of bytes from 0x80 to 0xbf only,
-- nothing of it is handed on, however long it is: all of it is held back.
pub split_runes_withholds :
    (text : Bytes) → text ≢ [] → All Tail text → split_runes text ≡ ([], text)
split_runes_withholds text n h = split_backwards text (reverse text) refl n (All-reverse text h)
