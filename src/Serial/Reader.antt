-- ===== src/Serial/Reader.antt =====
-- pkg/serial/manager.go: `readLoop`, the goroutine that serves one open port.
-- It is a function of what the driver's `Read` returns. Other goroutines change the manager only
-- between two iterations here; in the code they may also do so inside one, and what the loop then
-- decides by is the check in `publish` and in `handle_unexpected_disconnect`.
pub mod Runes
pub mod Stream
pub mod Withheld
use mathlib.Core.List.{reverse}
use serial_hub.Prelude.{
  ℕ, [], ◌∷◌, ◌++◌, List, Bool, true, false, ◌||◌, Option, none, some, Bytes, if◌then◌else◌, not,
  is_empty,
}
use serial_hub.Serial.Utf8.{hold_back, is_incomplete}
use serial_hub.Serial.Manager.{Manager, Cause, owns, publish, handle_unexpected_disconnect}

abbrev unreversed : Bytes × Bytes → Bytes × Bytes
unreversed (before, held) = (reverse before, held)

-- What is handed on of the bytes read so far, and what is kept for the next read, since it may be
-- the start of a rune.
unfoldable pub split_runes : Bytes → Bytes × Bytes
unfolding hold_back is_incomplete
split_runes text =
    let backwards = reverse text in
    if is_incomplete backwards then unreversed (hold_back [] backwards) else (text, [])

-- What `port.Read(buf)` returns: `buf[:n]`, or an error.
pub data ReadResult : Type 0 where
  got : Bytes → ReadResult
  failed : Cause → ReadResult

abbrev pub publish_if_any : Manager → ℕ → Bytes → Manager
publish_if_any s p chunk = if is_empty chunk then s else publish s p chunk

-- One iteration behind the `Read`: the manager, and `incompleteBuf`, or `none` where the loop ends.
unfoldable pub read_returned : Manager → ℕ → Bytes → ReadResult → Manager × Option Bytes
unfolding split_runes
read_returned s p incomplete (failed cause) = (handle_unexpected_disconnect s p cause, none)
read_returned s p incomplete (got []) = (s, some incomplete)
read_returned s p incomplete (got (x ∷ chunk)) =
    let (ready, held) = split_runes (incomplete ++ x ∷ chunk) in
    if not (owns s p) then (s, none) else (publish_if_any s p ready, some held)

-- The loop: it ends when it is cancelled or its port is no longer the manager's.
unfoldable pub read_loop : Manager → ℕ → Bytes → List ReadResult → Manager × Option Bytes
read_loop s p incomplete [] = (s, some incomplete)
read_loop s p incomplete (r ∷ rs) =
    let next = read_returned s p incomplete r in
    let rest : Manager × Option Bytes = elim next.1 [
      | none ↦ (next.0, none)
      | some held ↦ read_loop next.0 p held rs
    ] in
    if s.cancelled || not (owns s p) then (s, none) else rest
