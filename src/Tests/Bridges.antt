-- ===== src/Tests/Bridges.antt =====
-- pkg/bridge/bridge.go on concrete input.
use serial_hub.Prelude.{ℕ, ◌≡◌, refl, [], ◌∷◌, List, Bytes, codes, none, some}
use serial_hub.Buffer.{DataBuffer}
use serial_hub.Bridge.{
  convert_lf_to_crlf, Input, from_serial, from_ws, forward_loop, cmd_loop, broadcast,
}
use serial_hub.Bridge.Forwarding.{broadcasts, serial_writes, append_all, forward_loop_tee}

abbrev lines : Bytes
lines = codes "a\nb\r\nc"

converted : convert_lf_to_crlf lines ≡ codes "a\r\nb\r\nc"
unfolding convert_lf_to_crlf
converted = refl

abbrev mcp : DataBuffer ℕ
mcp = record { buffer = []; max_size = 64; observers = []; next_obs_id = 0 }

abbrev inputs : List Input
inputs = from_serial (codes "ok\n") 1 ∷ from_ws (codes "AT") ∷ from_serial [] 2 ∷ []

forward_loop_tee_example :
    let (s', sent) = forward_loop (mcp, 0) inputs in
    (broadcasts sent ≡ convert_lf_to_crlf (codes "ok\n") ∷ [])
    × (s' ≡ append_all (mcp, 0) ((codes "ok\n", 1) ∷ []))
    × (serial_writes sent ≡ codes "AT" ∷ [])
forward_loop_tee_example = forward_loop_tee (mcp, 0) inputs

answered :
    cmd_loop (some (λ cmd. some cmd)) (some (codes "{}") ∷ none ∷ some (codes "x") ∷ [])
    ≡ broadcast (codes "{}") ∷ []
unfolding cmd_loop
answered = refl
