-- ===== src/Buffer/Retention.antt =====
-- What `Append` keeps when the buffer overflows (internal/buffer/buffer.go).
use serial_hub.Prelude.{
  ℕ, ◌+◌, ◌-◌, ◌≤◌, ◌<◌, ◌≡◌, refl, sym, ◌∙◌, inl, inr, List, [], ◌∷◌, ◌++◌, max, arith, Bytes, ltb,
  ltb→lt, ltb→le, if◌then◌else◌, length, take_last, length-append, length-drop, drop-append,
  drop-append_past, drop, append-nil, Bool-cases, All,
}
use serial_hub.Buffer.Calls.{Call, appends, reads, clears, step, run}
use serial_hub.Buffer.{DataBuffer, kept, append, read, read_size, clear}

drop_none : (n : ℕ) (xs : Bytes) → n ≡ 0 → drop n xs ≡ xs
drop_none n xs e = rw e

kept-take_last :
    (m : ℕ) (old new : Bytes)
    → length new ≤ m
    → length old ≤ m
    → kept m old new ≡ take_last m (old ++ new)
unfolding kept
kept-take_last m old new h k = ground (
  arith,
  length-append old new,
  drop_none (length (old ++ new) - m) (old ++ new),
  drop-append (length old + length new - m) old new,
  drop-append_past (length old + length new - m) old new,
  drop_none (length old + length new - m - length old) new,
)

kept_oversized : (m : ℕ) (old new : Bytes) → m < length new → length old ≤ m → kept m old new ≡ new
unfolding kept
kept_oversized m old new h k = ground arith

kept-nil : (m : ℕ) (old : Bytes) → length old ≤ m → kept m old [] ≡ old
unfolding kept
kept-nil m old h = ground (arith, append-nil old)

module _ {W : Type 0} where
  append-kept :
      (b : DataBuffer W) (new : Bytes) (now : ℕ) (w : W)
      → length b.buffer ≤ b.max_size
      → (append b new now w).0.buffer ≡ kept b.max_size b.buffer new
  unfolding append
  append-kept b [] now w h = sym (kept-nil b.max_size b.buffer h)
  append-kept b (x ∷ new) now w h = refl

  -- `Append` to a buffer within its limit keeps the newest `max_size` bytes of the old content
  -- followed by the new chunk if the chunk fits the limit, and keeps exactly the chunk, whole, if
  -- the chunk is longer than the limit.
  pub append_newest :
      (b : DataBuffer W) (new : Bytes) (now : ℕ) (w : W)
      → length b.buffer ≤ b.max_size
      → (append b new now w).0.buffer
        ≡ (if ltb b.max_size (length new) then new else take_last b.max_size (b.buffer ++ new))
  append_newest b new now w h = elim (Bool-cases (ltb b.max_size (length new))) [
    | inl over ↦
        rw over
          (append-kept b new now w h ∙ kept_oversized b.max_size b.buffer new (ltb→lt _ _ over) h)
    | inr fits ↦
        rw fits
          (append-kept b new now w h ∙ kept-take_last b.max_size b.buffer new (ltb→le _ _ fits) h)
  ]

length-kept : (m : ℕ) (old new : Bytes) → length (kept m old new) ≤ max m (length new)
unfolding kept
length-kept m old new = ground (
  arith,
  length-append old new,
  length-append (drop (length old + length new - m) old) new,
  length-drop (length old + length new - m) old,
)

abbrev pub ChunkWithin : ℕ → Call → Type 0
ChunkWithin k (appends new now) = length new ≤ k
ChunkWithin k (reads n) = Unit
ChunkWithin k clears = Unit

module _ {W : Type 0} where
  abbrev pub IsWithin : ℕ → DataBuffer W → Type 0
  IsWithin k b = (b.max_size ≤ k) × (length b.buffer ≤ k)

  step-IsWithin :
      (k : ℕ) (s : DataBuffer W × W) (c : Call)
      → ChunkWithin k c
      → IsWithin k s.0
      → IsWithin k (step s c).0.0
  unfolding step append read clear
  step-IsWithin k (b, w) (appends [] now) h v = v
  step-IsWithin k (b, w) (appends (x ∷ new) now) h v =
      ground (arith, length-kept b.max_size b.buffer (x ∷ new))
  step-IsWithin k (b, w) (reads n) h v =
      ground (arith, length-drop (read_size n (length b.buffer)) b.buffer)
  step-IsWithin k (b, w) clears h v = ground arith

  -- Over any calls of `Append`, `Read` and `Clear`, the buffer never holds more than `k` bytes if
  -- it starts so, its limit is at most `k` and no chunk is longer than `k`.
  pub run-IsWithin :
      (k : ℕ) (s : DataBuffer W × W) (cs : List Call)
      → All (ChunkWithin k) cs
      → IsWithin k s.0
      → IsWithin k (run s cs).0.0
  unfolding run
  run-IsWithin k s [] h v = v
  run-IsWithin k s (c ∷ cs) h v = run-IsWithin k (step s c).0 cs h.1 (step-IsWithin k s c h.0 v)
