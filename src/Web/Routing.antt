-- ===== src/Web/Routing.antt =====
-- What becomes of what the terminals send (pkg/web/client.go, pkg/bridge/bridge.go).
use serial_hub.Prelude.{
  ℕ, ◌≤◌, Option, none, some, List, [], ◌∷◌, ◌++◌, ltb, ◌==◌, if◌then◌else◌, length, Bytes,
}
use serial_hub.Bridge.{Effect, broadcast}
use serial_hub.Web.{Server, web_data_chan_size, cmd_chan_size}

-- The messages that do not begin with an opening brace, and those that do, in order.
abbrev pub typed : List Bytes → List Bytes
typed [] = []
typed ([] ∷ messages) = typed messages
typed ((c ∷ s) ∷ messages) = if c == b'{' then typed messages else (c ∷ s) ∷ typed messages

abbrev pub commands : List Bytes → List Bytes
commands [] = []
commands ([] ∷ messages) = commands messages
commands ((c ∷ s) ∷ messages) = if c == b'{' then (c ∷ s) ∷ commands messages else commands messages

-- The answers to commands that have one.
abbrev answer : Option Bytes → List Effect → List Effect
answer none rest = rest
answer (some response) rest = broadcast response ∷ rest

abbrev pub answers : (Bytes → Option Bytes) → List Bytes → List Effect
answers handler [] = []
answers handler (cmd ∷ cmds) = answer (handler cmd) (answers handler cmds)

-- A queue of `n` places after messages have been offered to it.
abbrev offered : ℕ → List Bytes → Bytes → List Bytes
offered n queue message = if ltb (length queue) n then queue ++ message ∷ [] else queue

-- The queues do not outgrow their channels.
abbrev IsBounded : Server → Type 0
IsBounded w = (length w.data_chan ≤ web_data_chan_size) × (length w.cmd_chan ≤ cmd_chan_size)
