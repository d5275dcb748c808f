-- ===== src/Bridge.antt =====
-- pkg/bridge/bridge.go: the goroutines that forward data between the serial port, the Web terminals
-- and the buffer that the MCP tools read. A `select` takes one input at a time, so the loops are
-- functions of the sequence of inputs in the order in which they are taken. The serial manager and
-- the WebSocket server are seen by what is sent to them: `Effect`, newest last.
pub mod Lines
pub mod Forwarding
use serial_hub.Buffer.{DataBuffer, append}
use serial_hub.Prelude.{
  ℕ, [], ◌∷◌, ◌++◌, List, Bool, true, false, ◌&&◌, Option, none, some, Bytes, ◌==◌, if◌then◌else◌,
  not, is_empty,
}

abbrev pub cr : ℕ
cr = b'\r'

abbrev pub lf : ℕ
lf = b'\n'

-- `i > 0 && data[i-1] == '\r'`, where `none` stands for `i == 0`.
abbrev pub is_cr : Option ℕ → Bool
is_cr none = false
is_cr (some c) = c == cr

-- The loop of `ConvertLFToCRLF` behind the byte `prev`.
unfoldable pub convert_from : Option ℕ → Bytes → Bytes
convert_from prev [] = []
convert_from prev (c ∷ s) =
    let rest = c ∷ convert_from (some c) s in
    if (c == lf) && not (is_cr prev) then cr ∷ rest else rest

unfoldable pub convert_lf_to_crlf : Bytes → Bytes
unfolding convert_from
convert_lf_to_crlf chunk = convert_from none chunk

pub data Effect : Type 0 where
  broadcast : Bytes → Effect
  write_serial : Bytes → Effect

module _ {W : Type 0} where
  unfoldable pub forward_serial_to_both :
      DataBuffer W × W → Bytes → ℕ → (DataBuffer W × W) × List Effect
  forward_serial_to_both (mcp, w) chunk now =
      let cleaned = convert_lf_to_crlf chunk in (append mcp cleaned now w, broadcast cleaned ∷ [])

-- What a write error does is a line in the log.
unfoldable pub forward_ws_to_serial : Bytes → List Effect
forward_ws_to_serial chunk = write_serial chunk ∷ []

-- What the `select` of `forwardLoop` takes: a chunk with its time, or the end of a channel.
pub data Input : Type 0 where
  from_serial : Bytes → ℕ → Input
  from_ws : Bytes → Input
  serial_closed ws_closed cancelled : Input

module _ {W : Type 0} where
  unfoldable pub forward_loop : DataBuffer W × W → List Input → (DataBuffer W × W) × List Effect
  unfolding forward_serial_to_both forward_ws_to_serial
  forward_loop s [] = (s, [])
  forward_loop s (from_serial chunk now ∷ inputs) =
      let (s', sent) = if is_empty chunk then (s, []) else forward_serial_to_both s chunk now in
      let (s'', more) = forward_loop s' inputs in (s'', sent ++ more)
  forward_loop s (from_ws chunk ∷ inputs) =
      let sent = if is_empty chunk then [] else forward_ws_to_serial chunk in
      let (s', more) = forward_loop s inputs in (s', sent ++ more)
  forward_loop s (serial_closed ∷ inputs) = (s, [])
  forward_loop s (ws_closed ∷ inputs) = (s, [])
  forward_loop s (cancelled ∷ inputs) = (s, [])

-- `handleCommand` with the handler that was set, if any; a nil response is not sent.
unfoldable pub handle_command : Option (Bytes → Option Bytes) → Bytes → List Effect
handle_command none cmd = []
handle_command (some handler) cmd = elim (handler cmd) [
  | none ↦ []
  | some response ↦ broadcast response ∷ []
]

-- `cmdLoop`; `none` is the closed channel or the cancelled context.
unfoldable pub cmd_loop : Option (Bytes → Option Bytes) → List (Option Bytes) → List Effect
unfolding handle_command
cmd_loop handler [] = []
cmd_loop handler (none ∷ inputs) = []
cmd_loop handler (some cmd ∷ inputs) = handle_command handler cmd ++ cmd_loop handler inputs
