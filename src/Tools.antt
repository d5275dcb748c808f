-- ===== src/Tools.antt =====
-- pkg/mcp/tools/serial_connect.go, serial_disconnect.go, serial_write.go, serial_status.go,
-- serial_read.go and serial_clear.go: the tools that work on the manager and on the buffer. What
-- other goroutines do to the manager between two calls is the parameter `between`.
pub mod Connecting
pub mod Reading
use serial_hub.Prelude.{
  ℕ, zero, suc, ◌+◌, List, [], ◌∷◌, ◌++◌, Bool, true, false, ◌||◌, not, Option, none, some, Bytes,
  ℤ, pos, ltb, ltb_ℤ, is_positive, if◌then◌else◌, is_empty, bytes_eq, length, negsuc,
}
use serial_hub.Buffer.{DataBuffer, read, clear, append, buffered}
use serial_hub.Serial.Config.{Config, default_config}
use serial_hub.Serial.Manager.{
  Manager, Driver, ManagerError, is_connected, current_port, get_config, connect, disconnect,
  update_config, write, write_line,
}

pub record ConnectInput : Type 0 where
  pub port : Bytes
  pub baud_rate : ℤ

pub record WriteInput : Type 0 where
  pub content : Bytes
  pub add_newline : Option Bool

pub data Reply : Type 0 where
  connected_as : Bytes → ℤ → Reply
  connected_elsewhere : Bytes → Reply
  config_not_updated not_opened not_written : ManagerError → Reply
  nothing_connected : Reply
  disconnected_from : Bytes → Reply
  written : ℕ → Bytes → Reply

abbrev pub is_success : Reply → Bool
is_success (connected_as p b) = true
is_success (disconnected_from p) = true
is_success (written n d) = true
is_success (connected_elsewhere p) = false
is_success (config_not_updated e) = false
is_success (not_opened e) = false
is_success (not_written e) = false
is_success nothing_connected = false

abbrev pub Between : Type 0
Between = ℕ → Manager → Manager

abbrev pub connected_result : Manager → Reply
connected_result s = connected_as (get_config s).port (get_config s).baud_rate

unfoldable pub existing_connection_result : Between → Manager → Bytes → Manager × Reply
existing_connection_result between s want =
    let s₁ = between 4 s in
    let s₂ = between 5 s₁ in
    if bytes_eq (current_port s₁) want
    then (s₂, connected_result s₂)
    else (s₁, connected_elsewhere (current_port s₁))

unfoldable pub recheck_result : Between → Manager → Bytes → Reply → Manager × Reply
unfolding existing_connection_result
recheck_result between s want cause =
    let s' = between 3 s in
    if is_connected s' then existing_connection_result between s' want else (s', cause)

abbrev pub requested : ConnectInput → Config
requested input = record default_config {
  port = input.port;
  baud_rate = if is_positive input.baud_rate then input.baud_rate else pos 115200;
}

-- `connectMu` keeps two of these calls apart, but not other changes of the manager.
unfoldable pub execute_serial_connect : Driver → Between → Manager → ConnectInput → Manager × Reply
unfolding existing_connection_result recheck_result
execute_serial_connect d between s input =
    let s₀ = between 0 s in
    let u = update_config (between 1 s₀) (some (requested input)) in
    let c = connect d (between 2 u.0) in
    let t = between 6 c.0 in
    if is_connected s₀ then existing_connection_result between s₀ input.port else elim u.1 [
      | some x ↦ recheck_result between u.0 input.port (config_not_updated x)
      | none ↦ elim c.1 [
        | some x ↦ recheck_result between c.0 input.port (not_opened x)
        | none ↦ (t, connected_result t)
      ]
    ]

unfoldable pub execute_serial_disconnect : Between → Manager → Manager × Reply
execute_serial_disconnect between s =
    let s₀ = between 0 s in
    let s₁ = between 1 s₀ in
    if not (is_connected s₀)
    then (s₀, nothing_connected)
    else (disconnect (between 2 s₁), disconnected_from (current_port s₁))

abbrev pub line_reply : Bytes → Manager × Option ManagerError → Manager × Reply
line_reply text (s, none) = (s, written (length text) text)
line_reply text (s, some e) = (s, not_written e)

abbrev pub raw_reply : Bytes → Manager × (ℕ × Option ManagerError) → Manager × Reply
raw_reply text (s, (n, none)) = (s, written n text)
raw_reply text (s, (n, some e)) = (s, not_written e)

abbrev pub newline_wanted : Option Bool → Bool
newline_wanted none = true
newline_wanted (some b) = b

unfoldable pub execute_serial_write : Driver → Between → Manager → WriteInput → Manager × Reply
execute_serial_write d between s input =
    let s₀ = between 0 s in
    let s₁ = between 1 s₀ in
    if not (is_connected s₀)
    then (s₀, nothing_connected)
    else if newline_wanted input.add_newline || is_empty input.content
    then line_reply (input.content ++ b'\n' ∷ []) (write_line d s₁ input.content)
    else raw_reply input.content (write d s₁ input.content)

-- The connected configuration, if there is one.
unfoldable pub execute_serial_status : Between → Manager → Option Config
execute_serial_status between s =
    let s₀ = between 0 s in if is_connected s₀ then some (get_config (between 1 s₀)) else none

pub record ReadInput : Type 0 where
  pub timeout : Option ℤ
  pub max_size : ℤ

-- What the `select` of a waiting read takes.
pub data Wake : Type 0 where
  context_done timeout tick : Wake

-- One wait: the chunk that came in before it ended, how it ended, and whether another call took
-- the data between the check of the length and the read.
pub record Wait : Type 0 where
  pub chunk : Bytes
  pub wake : Wake
  pub taken : Bool

pub data ReadReply : Type 0 where
  read_cancelled read_failed read_timed_out : ReadReply
  read_bytes : Bytes → ReadReply

abbrev pub max_read : ℤ → ℤ
max_read n = if not (is_positive n) || ltb_ℤ (pos 4096) n then pos 4096 else n

abbrev pub reply_of : ReadReply → Option Bytes → ReadReply
reply_of otherwise none = otherwise
reply_of otherwise (some text) = read_bytes text

abbrev pub is_endless : Option ℤ → Bool
is_endless none = false
is_endless (some (pos zero)) = true
is_endless (some (pos (suc n))) = false
is_endless (some (negsuc n)) = false

module _ {W : Type 0} where
  abbrev pub after_chunk : DataBuffer W × W → Wait → DataBuffer W × W
  after_chunk (b, w) i = append b i.chunk 0 w

  unfoldable pub read_now : ReadReply → ℤ → DataBuffer W → DataBuffer W × ReadReply
  read_now otherwise n b = let (b', r) = read b n in (b', reply_of otherwise r)

  abbrev pub rivalled : Bool → DataBuffer W → DataBuffer W
  rivalled taken b = if taken then clear b else b

  -- The loop with a timer. `none`: it still waits.
  unfoldable pub timed_read : ℤ → List Wait → DataBuffer W × W → DataBuffer W × Option ReadReply
  unfolding read_now
  timed_read n [] s = (s.0, none)
  timed_read n (i ∷ is) s =
      let s' = after_chunk s i in
      let late = read_now read_timed_out n s'.0 in
      let data_there = read_now read_failed n (rivalled i.taken s'.0) in
      let rest = timed_read n is s' in
      elim i.wake [
        | context_done ↦ (s'.0, some read_cancelled)
        | timeout ↦ (late.0, some late.1)
        | tick ↦ if ltb 0 (buffered s'.0) then (data_there.0, some data_there.1) else rest
      ]

  -- The loop without one, which looks at the length before it waits.
  unfoldable pub endless_read :
      ℤ → Bool → List Wait → DataBuffer W × W → DataBuffer W × Option ReadReply
  unfolding read_now
  endless_read n taken [] s =
      let there = read_now read_failed n (rivalled taken s.0) in
      if ltb 0 (buffered s.0) then (there.0, some there.1) else (s.0, none)
  endless_read n taken (i ∷ is) s =
      let there = read_now read_failed n (rivalled taken s.0) in
      let s' = after_chunk s i in
      let rest = endless_read n i.taken is s' in
      let waited = elim i.wake as (λ x. DataBuffer W × Option ReadReply) [
        | context_done ↦ (s'.0, some read_cancelled)
        | timeout ↦ rest
        | tick ↦ rest
      ] in
      if ltb 0 (buffered s.0) then (there.0, some there.1) else waited

  unfoldable pub execute_serial_read :
      ReadInput → Bool → List Wait → DataBuffer W × W → DataBuffer W × Option ReadReply
  unfolding timed_read endless_read
  execute_serial_read input taken is s =
      let n = max_read input.max_size in
      let endless = endless_read n taken is s in
      let timed = timed_read n is s in if is_endless input.timeout then endless else timed

  -- How many bytes the tool says it has cleared.
  unfoldable pub execute_serial_clear : DataBuffer W → DataBuffer W × ℕ
  execute_serial_clear b = (clear b, buffered b)
