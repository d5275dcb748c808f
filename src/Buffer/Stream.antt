-- ===== src/Buffer/Stream.antt =====
-- The buffer as a queue of bytes (internal/buffer/buffer.go): what is read, and in which order.
use mathlib.Core.Path.{subst}
use serial_hub.Prelude.{
  ◌-◌, length-drop, if◌then◌else◌, min, ◌+◌, ◌≤◌, ◌≡◌, ◌↔◌, sym, ◌∙◌, ap, List, [], ◌∷◌, ◌++◌, none,
  arith, Bytes, ℤ, ℕ, length, take-append-drop, append_assoc, append-nil, length-append,
  length-take, is_positive, pos_part, All,
}
use serial_hub.Buffer.{DataBuffer, kept, append, read, read_size, peek}
use serial_hub.Buffer.Calls.{Call, appends, reads, clears, or_nil, step, run, received}

-- No call empties the buffer.
abbrev pub IsTransfer : Call → Type 0
IsTransfer (appends new now) = Unit {0}
IsTransfer (reads n) = Unit
IsTransfer clears = ⊥

-- What a read for `n` leaves of `unread` bytes.
abbrev pub left_after : ℤ → ℕ → ℕ
left_after n unread = if is_positive n then unread - pos_part n else 0

-- Every chunk fits into the limit with what is unread when it comes.
abbrev pub Fits : ℕ → ℕ → List Call → Type 0
Fits max_size unread [] = Unit
Fits max_size unread (appends new now ∷ cs) =
    (unread + length new ≤ max_size) × Fits max_size (unread + length new) cs
Fits max_size unread (reads n ∷ cs) = Fits max_size (left_after n unread) cs
Fits max_size unread (clears ∷ cs) = Fits max_size 0 cs

Fits-same : (cs : List Call) {m m' u u' : ℕ} → m ≡ m' → u ≡ u' → Fits m u cs → Fits m' u' cs
Fits-same cs {m} {m'} {u} {u'} e f h =
    subst (λ (x : ℕ). Fits m' x cs) f (subst (λ (x : ℕ). Fits x u cs) e h)

module _ {W : Type 0} where
  read-append : (b : DataBuffer W) (n : ℤ) → or_nil (read b n).1 ++ (read b n).0.buffer ≡ b.buffer
  unfolding read
  read-append b n = ground (arith, take-append-drop (read_size n (length b.buffer)) b.buffer)

  -- `Read n` hands out a prefix of the buffer and leaves the rest: the first `n` bytes, or all if
  -- fewer are there, for a positive `n`, and everything for any other. It gives nil exactly on the
  -- empty buffer, and `Peek n` gives what `Read n` would.
  pub read_prefix :
      (b : DataBuffer W) (n : ℤ)
      → (or_nil (read b n).1 ++ (read b n).0.buffer ≡ b.buffer)
        × (length (or_nil (read b n).1)
            ≡ (if is_positive n then min (pos_part n) (length b.buffer) else length b.buffer))
        × (((read b n).1 ≡ none) ↔ (b.buffer ≡ []))
        × (peek b n ≡ (read b n).1)
  unfolding read peek read_size
  read_prefix b n = (
    read-append b n,
    ground (arith, length-take (read_size n (length b.buffer)) b.buffer),
    (ground arith, ground arith),
    ground arith,
  )

  append_room :
      (b : DataBuffer W) (new : Bytes) (now : ℕ) (w : W)
      → length b.buffer + length new ≤ b.max_size
      → (append b new now w).0.buffer ≡ b.buffer ++ new
  unfolding append kept
  append_room b [] now w h = sym (append-nil b.buffer)
  append_room b (x ∷ new) now w h = ground arith

  append-max_size :
      (b : DataBuffer W) (new : Bytes) (now : ℕ) (w : W)
      → (append b new now w).0.max_size ≡ b.max_size
  unfolding append
  append-max_size b new now w = ground arith

  read-max_size : (b : DataBuffer W) (n : ℤ) → (read b n).0.max_size ≡ b.max_size
  unfolding read
  read-max_size b n = ground arith

  left_after-read :
      (b : DataBuffer W) (n : ℤ) → length (read b n).0.buffer ≡ left_after n (length b.buffer)
  unfolding read read_size
  left_after-read b n = ground (arith, length-drop (read_size n (length b.buffer)) b.buffer)

  -- As long as every chunk fits beside what is unread when it comes and nobody clears the buffer,
  -- no byte is lost, doubled or reordered: what the reads hand out, followed by what is left, is the
  -- initial content followed by everything received. How much is unread is counted from the calls.
  pub run_fifo :
      (s : DataBuffer W × W) (cs : List Call)
      → All IsTransfer cs
      → Fits s.0.max_size (length s.0.buffer) cs
      → (run s cs).1 ++ (run s cs).0.0.buffer ≡ s.0.buffer ++ received cs
  unfolding run step
  run_fifo s [] t h = sym (append-nil s.0.buffer)
  run_fifo (b, w) (appends new now ∷ cs) t h =
      let b' = (append b new now w).0 in
      let room = append_room b new now w h.0 in
      let size : length b.buffer + length new ≡ length b'.buffer =
        sym (ap length room ∙ length-append b.buffer new) in
      run_fifo (append b new now w) cs t.1
        (Fits-same cs (sym (append-max_size b new now w)) size h.1)
      ∙ rw (room, append_assoc)
  run_fifo (b, w) (reads n ∷ cs) t h =
      let rest =
        run_fifo ((read b n).0, w) cs t.1
          (Fits-same cs (sym (read-max_size b n)) (sym (left_after-read b n)) h) in
      rw (append_assoc, rest, ← append_assoc, read-append)
  run_fifo s (clears ∷ cs) t h = absurd t.0
