-- ===== src/Serial/Reader/Stream.antt =====
-- The bytes that pass through the reading loop (pkg/serial/manager.go).
use mathlib.Core.List.{reverse, reverse-cons, reverse-reverse}
use serial_hub.Prelude.{
  map, ℕ, ◌+◌, ◌≤◌, [], ◌∷◌, ◌++◌, List, Bytes, ◌≡◌, refl, Bool-cases, append_assoc, append-nil, ap,
  sym, ◌∙◌, inl, inr, some, Option, suc, true, false, concat, concat-append, length, length-append,
  arith,
}
use serial_hub.Serial.Utf8.{hold_back, is_incomplete, is_continuation}
use serial_hub.Serial.Manager.{Manager, publish, owns, data_chan_size}
use serial_hub.Serial.Reader.{
  publish_if_any, split_runes, ReadResult, got, read_returned, read_loop,
}

abbrev joined : Bytes × Bytes → Bytes
joined (before, held) = reverse before ++ held

reverse-move :
    (c : ℕ) (before held : Bytes) → reverse (c ∷ before) ++ held ≡ reverse before ++ c ∷ held
reverse-move c before held =
    ap (λ l. l ++ held) (reverse-cons c before) ∙ append_assoc (reverse before) (c ∷ []) held

hold_back-append : (held before : Bytes) → joined (hold_back held before) ≡ reverse before ++ held
unfolding hold_back
hold_back-append held [] = refl
hold_back-append held (c ∷ before) = elim (Bool-cases (is_continuation c)) [
  | inl further ↦ rw further (hold_back-append (c ∷ held) before ∙ sym (reverse-move c before held))
  | inr start ↦ rw start (sym (reverse-move c before held))
]

split_runes-append : (text : Bytes) → (split_runes text).0 ++ (split_runes text).1 ≡ text
unfolding split_runes
split_runes-append text = elim (Bool-cases (is_incomplete (reverse text))) [
  | inl cut ↦ rw cut (
      hold_back-append [] (reverse text)
      ∙ append-nil (reverse (reverse text))
      ∙ reverse-reverse text)
  | inr whole ↦ rw whole (append-nil text)
]

-- The state of a manager that the reading of `p` goes on with: `room` more chunks fit the channel.
abbrev pub IsServed : Manager → ℕ → ℕ → Type 0
IsServed s p room =
    (s.port ≡ some p) × (s.cancelled ≡ false) × (length s.data_chan + room ≤ data_chan_size)

publish-concat :
    (s : Manager) (p : ℕ) (chunk : Bytes) (room : ℕ)
    → IsServed s p (suc room)
    → (concat (publish s p chunk).data_chan ≡ concat s.data_chan ++ chunk)
      × IsServed (publish s p chunk) p room
unfolding publish
publish-concat s p chunk room h = ground (
  arith,
  concat-append s.data_chan (chunk ∷ []),
  append-nil chunk,
  length-append s.data_chan (chunk ∷ []),
)

owns_port : (s : Manager) (p : ℕ) → s.port ≡ some p → owns s p ≡ true
unfolding owns
owns_port s p e = ground arith

-- What an iteration leaves: all that was read, in the channel or held back.
abbrev Keeps : Manager → ℕ → Bytes → ℕ → Manager × Option Bytes → Type 0
Keeps s p new room next =
    (held : Bytes) × (next.1 ≡ some held)
    × (concat next.0.data_chan ++ held ≡ concat s.data_chan ++ new)
    × IsServed next.0 p room

read_returned-Keeps :
    (s : Manager) (p : ℕ) (incomplete chunk : Bytes) (room : ℕ)
    → IsServed s p (suc room)
    → Keeps s p (incomplete ++ chunk) room (read_returned s p incomplete (got chunk))
unfolding read_returned
read_returned-Keeps s p incomplete [] room h = (incomplete, refl, rw append-nil, ground arith)
read_returned-Keeps s p incomplete (x ∷ chunk) room h = rw (owns_port s p h.0) (
    publish_any (split_runes (incomplete ++ x ∷ chunk)).0 (split_runes (incomplete ++ x ∷ chunk)).1
      (split_runes-append (incomplete ++ x ∷ chunk)))
  where
    publish_any :
        (ready held : Bytes)
        → ready ++ held ≡ incomplete ++ x ∷ chunk
        → Keeps s p (incomplete ++ x ∷ chunk) room (publish_if_any s p ready, some held)
    publish_any [] held e = (held, refl, ap (◌++◌ (concat s.data_chan)) e, (h.0, h.1, omega arith))
    publish_any (y ∷ ready) held e =
        let q = publish-concat s p (y ∷ ready) room h in
        (
          held,
          refl,
          ap (λ l. l ++ held) q.0
              ∙ append_assoc (concat s.data_chan) (y ∷ ready) held
              ∙ ap (◌++◌ (concat s.data_chan)) e,
          q.1,
        )

read_loop_next :
    (s : Manager) (p : ℕ) (incomplete held : Bytes) (r : ReadResult) (rs : List ReadResult)
    → s.port ≡ some p
    → s.cancelled ≡ false
    → (read_returned s p incomplete r).1 ≡ some held
    → read_loop s p incomplete (r ∷ rs) ≡ read_loop (read_returned s p incomplete r).0 p held rs
unfolding read_loop
read_loop_next s p incomplete held r rs e c n = ground (arith, owns_port s p e)

-- While nobody takes the port away and the channel has room for one more chunk for each read, the
-- loop goes on, and the chunks in the channel followed by the bytes held back are, byte for byte
-- and in order, what the channel and the loop held before, followed by all that was read.
pub read_loop_conserves :
    (s : Manager) (p : ℕ) (incomplete : Bytes) (chunks : List Bytes)
    → IsServed s p (length chunks)
    → let (s', left) = read_loop s p incomplete (map got chunks) in
      (held : Bytes) × (left ≡ some held)
      × (concat s'.data_chan ++ held ≡ concat s.data_chan ++ (incomplete ++ concat chunks))
      × (s'.port ≡ some p)
read_loop_conserves s p incomplete [] h = (
  incomplete,
  unfold read_loop in refl,
  unfold read_loop in rw append-nil,
  unfold read_loop in h.0,
)
read_loop_conserves s p incomplete (x ∷ chunks) h =
    let (held, n, kept, served) = read_returned-Keeps s p incomplete x (length chunks) h in
    let next = (read_returned s p incomplete (got x)).0 in
    let (final, m, all, port) = read_loop_conserves next p held chunks served in
    let step = read_loop_next s p incomplete held (got x) (map got chunks) h.0 h.1 n in
    (
      final,
      ap (λ r. r.1) step ∙ m,
      ap (λ r. concat (r.0).data_chan ++ final) step
          ∙ all
          ∙ sym (append_assoc (concat next.data_chan) held (concat chunks))
          ∙ ap (λ l. l ++ concat chunks) kept
          ∙ append_assoc (concat s.data_chan) (incomplete ++ x) (concat chunks)
          ∙ ap (◌++◌ (concat s.data_chan)) (append_assoc incomplete x (concat chunks)),
      ap (λ r. (r.0).port) step ∙ port,
    )
