-- ===== src/Buffer/Calls.antt =====
-- Sequences of calls on the buffer (internal/buffer/buffer.go). The mutex makes each call one step.
use serial_hub.Prelude.{ℕ, List, [], ◌∷◌, ◌++◌, Option, none, some, Bytes, ℤ}
use serial_hub.Buffer.{DataBuffer, append, read, clear}

abbrev pub or_nil : Option Bytes → Bytes
or_nil none = []
or_nil (some x) = x

pub data Call : Type 0 where
  appends : Bytes → ℕ → Call
  reads : ℤ → Call
  clears : Call

module _ {W : Type 0} where
  -- The state after the call, and the bytes that it hands out.
  unfoldable pub step : DataBuffer W × W → Call → (DataBuffer W × W) × Bytes
  step (b, w) (appends new now) = (append b new now w, [])
  step (b, w) (reads n) = let (b', out) = read b n in ((b', w), or_nil out)
  step (b, w) clears = ((clear b, w), [])

  unfoldable pub run : DataBuffer W × W → List Call → (DataBuffer W × W) × Bytes
  run s [] = (s, [])
  run s (c ∷ cs) = let (s', out) = step s c in let (s'', more) = run s' cs in (s'', out ++ more)

-- What the appends among the calls bring in.
abbrev pub received : List Call → Bytes
received [] = []
received (appends new now ∷ cs) = new ++ received cs
received (reads n ∷ cs) = received cs
received (clears ∷ cs) = received cs
