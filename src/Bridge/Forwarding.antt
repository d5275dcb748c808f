-- ===== src/Bridge/Forwarding.antt =====
-- Who gets which data, in which order (pkg/bridge/bridge.go).
use serial_hub.Buffer.{DataBuffer, append}
use serial_hub.Prelude.{ℕ, ◌≡◌, refl, [], ◌∷◌, List, Bytes, is_empty, if◌then◌else◌, ap}
use serial_hub.Bridge.{
  Effect, broadcast, write_serial, Input, from_serial, from_ws, serial_closed, ws_closed, cancelled,
  convert_lf_to_crlf, forward_loop,
}

-- What comes from the serial port before a channel closes or the bridge stops, and from the Web
-- terminals: the chunks that hold something, in order.
abbrev pub serial_chunks : List Input → List (Bytes × ℕ)
serial_chunks [] = []
serial_chunks (from_serial chunk now ∷ inputs) =
    if is_empty chunk then serial_chunks inputs else (chunk, now) ∷ serial_chunks inputs
serial_chunks (from_ws chunk ∷ inputs) = serial_chunks inputs
serial_chunks (_ ∷ inputs) = []

abbrev pub ws_chunks : List Input → List Bytes
ws_chunks [] = []
ws_chunks (from_serial chunk now ∷ inputs) = ws_chunks inputs
ws_chunks (from_ws chunk ∷ inputs) =
    if is_empty chunk then ws_chunks inputs else chunk ∷ ws_chunks inputs
ws_chunks (_ ∷ inputs) = []

-- What the Web terminals and the serial port are sent.
abbrev pub broadcasts : List Effect → List Bytes
broadcasts [] = []
broadcasts (broadcast chunk ∷ sent) = chunk ∷ broadcasts sent
broadcasts (write_serial chunk ∷ sent) = broadcasts sent

abbrev pub serial_writes : List Effect → List Bytes
serial_writes [] = []
serial_writes (broadcast chunk ∷ sent) = serial_writes sent
serial_writes (write_serial chunk ∷ sent) = chunk ∷ serial_writes sent

abbrev pub cleaned : List (Bytes × ℕ) → List Bytes
cleaned [] = []
cleaned ((chunk, now) ∷ rest) = convert_lf_to_crlf chunk ∷ cleaned rest

module _ {W : Type 0} where
  -- The buffer after appending converted chunks in order.
  abbrev pub append_all : DataBuffer W × W → List (Bytes × ℕ) → DataBuffer W × W
  append_all s [] = s
  append_all (b, w) ((chunk, now) ∷ rest) =
      append_all (append b (convert_lf_to_crlf chunk) now w) rest

  -- Until a channel closes or the bridge stops, every chunk from the serial port that holds
  -- something is converted and goes, in order, both to all Web terminals and into the MCP buffer,
  -- and every such chunk from a Web terminal goes, in order and unchanged, to the serial port and
  -- nowhere else.
  pub forward_loop_tee :
      (s : DataBuffer W × W) (inputs : List Input)
      → let (s', sent) = forward_loop s inputs in
        (broadcasts sent ≡ cleaned (serial_chunks inputs))
        × (s' ≡ append_all s (serial_chunks inputs))
        × (serial_writes sent ≡ ws_chunks inputs)
  unfolding forward_loop
  forward_loop_tee s [] = (refl, refl, refl)
  forward_loop_tee s (from_serial [] now ∷ inputs) = forward_loop_tee s inputs
  forward_loop_tee (b, w) (from_serial (x ∷ chunk) now ∷ inputs) =
      let ih = forward_loop_tee (append b (convert_lf_to_crlf (x ∷ chunk)) now w) inputs in
      (ap (◌∷◌ (convert_lf_to_crlf (x ∷ chunk))) ih.0, ih.1, ih.2)
  forward_loop_tee s (from_ws [] ∷ inputs) = forward_loop_tee s inputs
  forward_loop_tee s (from_ws (x ∷ chunk) ∷ inputs) =
      let ih = forward_loop_tee s inputs in (ih.0, ih.1, ap (◌∷◌ (x ∷ chunk)) ih.2)
  forward_loop_tee s (serial_closed ∷ inputs) = (refl, refl, refl)
  forward_loop_tee s (ws_closed ∷ inputs) = (refl, refl, refl)
  forward_loop_tee s (cancelled ∷ inputs) = (refl, refl, refl)
