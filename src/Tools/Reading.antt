-- ===== src/Tools/Reading.antt =====
-- The reading tool (pkg/mcp/tools/serial_read.go).
use serial_hub.Prelude.{
  ℕ, ◌≤◌, ◌≡◌, refl, List, [], ◌∷◌, Bool, true, false, Option, none, some, Bytes, ℤ, pos, negsuc,
  Bool-cases, inl, inr, arith, length, length-take, ltb, if-cases, is_positive, pos_part, is_empty,
}
use serial_hub.Buffer.{DataBuffer, read, read_size, append, buffered}
use serial_hub.Tools.{
  ReadReply, read_cancelled, read_failed, read_timed_out, read_bytes, Wait, Wake, context_done,
  timeout, tick, max_read, read_now, rivalled, timed_read, endless_read, execute_serial_read,
  ReadInput, is_endless,
}

-- A size that the tool asks for.
abbrev IsSize : ℤ → Type 0
IsSize n = (1 ≤ pos_part n) × (pos_part n ≤ 4096) × (is_positive n ≡ true)

max_read-IsSize : (n : ℤ) → IsSize (max_read n)
max_read-IsSize (pos n) = ground arith
max_read-IsSize (negsuc n) = ground arith

nonempty : (xs : Bytes) → is_empty xs ≡ false → 1 ≤ length xs
nonempty [] h = cc
nonempty (x ∷ xs) h = omega arith

empty : (xs : Bytes) → is_empty xs ≡ true → xs ≡ []
empty [] h = refl
empty (x ∷ xs) h = cc

size_bounds :
    (n : ℤ) (len : ℕ)
    → IsSize n
    → 1 ≤ len
    → (1 ≤ read_size n len) × (read_size n len ≤ 4096) × (read_size n len ≤ len)
unfolding read_size
size_bounds n len h l = ground arith

module _ {W : Type 0} where
  -- What a reply promises of the bytes and of the buffer that is left.
  abbrev pub IsFair : DataBuffer W → ReadReply → Type 0
  IsFair b read_cancelled = Unit
  IsFair b read_failed = b.buffer ≡ []
  IsFair b read_timed_out = b.buffer ≡ []
  IsFair b (read_bytes text) = (1 ≤ length text) × (length text ≤ 4096)

  abbrev pub IsFairIfAny : DataBuffer W × Option ReadReply → Type 0
  IsFairIfAny (b, none) = Unit
  IsFairIfAny (b, some r) = IsFair b r

  read_now-IsFair :
      (otherwise : ReadReply) (n : ℤ) (b : DataBuffer W)
      → IsSize n
      → (b.buffer ≡ [] → IsFair b otherwise)
      → IsFair (read_now otherwise n b).0 (read_now otherwise n b).1
  unfolding read_now read
  read_now-IsFair otherwise n b h k = elim (Bool-cases (is_empty b.buffer)) [
    | inl e ↦ rw (read_now, read, e) (k (empty b.buffer e))
    | inr e ↦
        let (low, high, fits) = size_bounds n (length b.buffer) h (nonempty b.buffer e) in
        let len = length-take (read_size n (length b.buffer)) b.buffer in
        rw (read_now, read, e) (omega arith, omega arith)
  ]

  by_wake :
      (wake : Wake) (a b c : DataBuffer W × Option ReadReply)
      → IsFairIfAny a
      → IsFairIfAny b
      → IsFairIfAny c
      → IsFairIfAny (elim wake as (λ x. DataBuffer W × Option ReadReply) [
        | context_done ↦ a
        | timeout ↦ b
        | tick ↦ c
      ])
  by_wake context_done a b c h k l = h
  by_wake timeout a b c h k l = k
  by_wake tick a b c h k l = l

  timed_read-IsFair :
      (n : ℤ) (is : List Wait) (s : DataBuffer W × W) → IsSize n → IsFairIfAny (timed_read n is s)
  unfolding timed_read
  timed_read-IsFair n [] s h = tt
  timed_read-IsFair n (i ∷ is) s h =
      let s' = append s.0 i.chunk 0 s.1 in
      by_wake i.wake _ _ _ tt (read_now-IsFair read_timed_out n s'.0 h (λ e. e)) (
        if-cases IsFairIfAny (ltb 0 (buffered s'.0)) _ (timed_read n is s')
          (λ l. read_now-IsFair read_failed n (rivalled i.taken s'.0) h (λ e. e))
          (λ l. timed_read-IsFair n is s' h))

  endless_read-IsFair :
      (n : ℤ) (taken : Bool) (is : List Wait) (s : DataBuffer W × W)
      → IsSize n
      → IsFairIfAny (endless_read n taken is s)
  unfolding endless_read
  endless_read-IsFair n taken [] s h =
      if-cases IsFairIfAny (ltb 0 (buffered s.0)) _ (s.0, none)
        (λ l. read_now-IsFair read_failed n (rivalled taken s.0) h (λ e. e)) (λ l. tt)
  endless_read-IsFair n taken (i ∷ is) s h =
      let s' = append s.0 i.chunk 0 s.1 in
      if-cases IsFairIfAny (ltb 0 (buffered s.0)) _ _
        (λ l. read_now-IsFair read_failed n (rivalled taken s.0) h (λ e. e))
        (λ l. let rest = endless_read-IsFair n i.taken is s' h in by_wake i.wake _ _ _ tt rest rest)

  -- Whatever comes in and whoever else reads or clears meanwhile, a read that ends with data gives
  -- between 1 and 4096 bytes, and one that fails or times out leaves an empty buffer.
  pub execute_serial_read-IsFair :
      (input : ReadInput) (taken : Bool) (is : List Wait) (s : DataBuffer W × W)
      → IsFairIfAny (execute_serial_read input taken is s)
  unfolding execute_serial_read
  execute_serial_read-IsFair input taken is s =
      let n = max_read-IsSize input.max_size in
      if-cases IsFairIfAny (is_endless input.timeout) _ _ (λ e. endless_read-IsFair _ taken is s n)
        (λ e. timed_read-IsFair _ is s n)
